-- ===== src/Tests/Renewers.antt =====
-- A resharing of a concrete key on three nodes over concrete stores.
use alice_tss.Base.{refl, some, List, [], ◌∷◌, Text, codes, ok, err, lib, arith}
use alice_tss.Store.Badger.{pubkey_text}
use alice_tss.Service.Node.{state_init, Node}
use alice_tss.Service.Lifecycle.{Event, received, changed}
use alice_tss.Server.Peers.{Formats}
use alice_tss.Server.Rpc.Keys.{sign_json}
use alice_tss.Server.Rpc.Keys.Renewal.{reshare_json}
use alice_tss.Server.Cluster.{Colleague}
use alice_tss.Server.Cluster.Keys.{Fellow, as_colleague}
use alice_tss.Server.Cluster.Keys.Renewing.{Turn}
use alice_tss.Server.Cluster.Keys.Renewal.{after_it, PeerRenewed, PeerHelps, hearing, finished}
use alice_tss.Tests.Toys.{
  toy_libs, toy_laws, toy_codec, toy_codec_laws, toy_badger, toy_badger_laws, toy_key, toy_outcome,
}
use alice_tss.Tests.Storage.{toy_Steady}
use alice_tss.Tests.Lives.{reshare_outcome}
use alice_tss.Tests.Servers.{toy_alice, known_peers, manager}
use alice_tss.Tests.Nodes.{holding_node}
use alice_tss.Tests.Colleagues.{parse_addr, addr_info, dials, calls}

abbrev formats : Formats
formats = record {
  sign_json = λ b. ok (record {
    hash = codes "h";
    pubkey = pubkey_text toy_libs toy_outcome;
    message = codes "00ff";
  });
  sign_proto = λ b. err (lib 8);
  reshare_json = λ b. ok (record { hash = codes "h"; pubkey = pubkey_text toy_libs toy_outcome });
  reshare_proto = λ b. err (lib 8);
}

abbrev ToyFellow : Type 1
ToyFellow = Fellow toy_libs toy_laws toy_codec toy_codec_laws toy_badger toy_badger_laws toy_Steady

abbrev fellows : Text → ToyFellow
fellows k = record {
  alice = toy_alice;
  key = toy_key;
  formats = formats;
  heap = known_peers;
  manager = manager;
  node = holding_node;
}

abbrev before_done : List Event
before_done = received (some (codes "m")) ∷ changed state_init ∷ []

abbrev turns :
    (k : Text)
    → Turn toy_libs toy_laws toy_codec toy_codec_laws toy_badger toy_badger_laws toy_Steady
        (fellows k)
turns k = record {
  outcome = toy_outcome;
  machine = 0;
  before = before_done;
  after = [];
  share = reshare_outcome;
}

abbrev others_before : Text → Colleague toy_badger.Db
others_before k =
    as_colleague toy_libs toy_laws toy_codec toy_codec_laws toy_badger toy_badger_laws toy_Steady
      (fellows k)

abbrev others_after : Text → Colleague toy_badger.Db
others_after =
    after_it toy_libs toy_laws toy_codec toy_codec_laws toy_badger toy_badger_laws toy_Steady
      toy_alice toy_key parse_addr addr_info (λ v. codes "data") known_peers manager 5 (codes "h")
      (omega arith) toy_outcome refl fellows turns dials (calls others_before)

abbrev ToyRenewed : Text → Type 0
ToyRenewed =
    PeerRenewed toy_libs toy_laws toy_codec toy_codec_laws toy_badger toy_badger_laws toy_Steady
      toy_alice toy_key parse_addr addr_info (λ v. codes "data") known_peers manager 5 (codes "h")
      (omega arith) toy_outcome refl fellows turns dials (calls others_before)

abbrev ToyHelps : Text → Type 0
ToyHelps =
    PeerHelps toy_libs toy_laws toy_codec toy_codec_laws toy_badger toy_badger_laws toy_Steady
      toy_alice toy_key parse_addr addr_info (λ v. codes "data") known_peers manager 5 (codes "h")
      (omega arith) toy_outcome refl fellows turns dials (calls others_before) reshare_outcome
      (codes "00ff") (omega arith) dials (calls others_after)

abbrev heard : Node toy_badger.Db
heard =
    hearing toy_libs toy_laws toy_codec toy_codec_laws toy_badger toy_badger_laws toy_Steady
      toy_alice toy_key parse_addr addr_info (λ v. codes "data") known_peers manager 5 (codes "h")
      (omega arith) toy_outcome refl fellows turns dials (calls others_before) 0 before_done []
      reshare_outcome holding_node

abbrev left : Node toy_badger.Db
left =
    finished toy_libs toy_laws toy_codec toy_codec_laws toy_badger toy_badger_laws toy_Steady
      toy_alice toy_key parse_addr addr_info (λ v. codes "data") known_peers manager 5 (codes "h")
      (omega arith) toy_outcome refl fellows turns dials (calls others_before) 0 before_done []
      reshare_outcome holding_node
