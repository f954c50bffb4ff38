-- ===== src/Tests/Networks.antt =====
-- Two nodes with a signer each, and a message between them.
use alice_tss.Base.{ℕ, ◌≡◌, refl, none, some, inl, [], ◌∷◌, Text, codes, lookup, All}
use alice_tss.Utils.Keys.{to_hex_hash, to_hex}
use alice_tss.Codec.Hex.{hex_encode}
use alice_tss.Peer.Manager.{get_protocol, clone_peer_manager, target_of}
use alice_tss.Peer.Transport.{must_send}
use alice_tss.Store.Mock.{MockDb}
use alice_tss.Store.Handler.{mock_handler}
use alice_tss.Service.Signer.{handle_signer}
use alice_tss.Steps.{start, after}
use alice_tss.Service.Sessions.{Sessions, begins}
use alice_tss.Service.Network.{
  Network, Packet, Taken, Moves, acts, sends, delivers, with_node, took,
}
use alice_tss.Service.Network.Laws.{Comes, taken_fair, sent_arrives}
use alice_tss.Tests.Toys.{toy_libs}
use alice_tss.Tests.Lives.{mock_SignCalm}
use alice_tss.Tests.Servers.{small_config, empty_node}
use alice_tss.Tests.Sessions.{machine, paillier, makes, signer_of, with_signer, made, one}
use alice_tss.Tests.Peers.{one_peer, manager, toy_net}

abbrev hash : Text
hash = to_hex_hash toy_libs one

abbrev near : Text
near = codes "me"

abbrev far : Text
far = codes "/ip4/1"

abbrev signing : Sessions ℕ MockDb
signing = record { signers = (hash, signer_of one) ∷ []; node = with_signer one empty_node }

abbrev both_sign : Network ℕ MockDb
both_sign = record {
  nodes =
      with_node far signing
        (with_node near signing (λ i. record { signers = []; node = empty_node }));
  flight = [];
  taken = [];
}

abbrev Goes : Network ℕ MockDb → Network ℕ MockDb → Type 0
Goes =
    Moves toy_libs machine (mock_handler toy_libs) paillier makes toy_net (λ i. one_peer)
      (λ i. manager)

both_sign-Comes :
    Comes toy_libs machine
      (mock_handler toy_libs)
      mock_SignCalm
      paillier
      makes
      toy_net
      (λ i. one_peer)
      (λ i. manager)
      (λ i. empty_node)
      both_sign
both_sign-Comes =
    after
      (after start (
        acts near signing
          (begins small_config one (signer_of one) (with_signer one empty_node)
            (made one empty_node) (λ p e. cc))
          tt))
      (acts far signing
        (begins small_config one (signer_of one) (with_signer one empty_node) (made one empty_node)
          (λ p e. cc))
        tt)

sent_arrives_example :
    (c1 : Network ℕ MockDb) × (c2 : Network ℕ MockDb) × Goes both_sign c1
    × Goes c1 c2
    × (lookup hash (c2.nodes far).signers
        ≡ some (
            handle_signer toy_libs machine
              (mock_handler toy_libs)
              (signer_of one)
              (some (codes "m"))))
    × (c2.taken ≡ record { sender = hash; reader = hash } ∷ [])
unfolding must_send target_of to_hex_hash to_hex hex_encode
sent_arrives_example =
    sent_arrives toy_libs machine (mock_handler toy_libs) mock_SignCalm paillier makes toy_net
      (λ i. one_peer) (λ i. manager) (λ i. empty_node) near hash (codes "A") (signer_of one)
      (signer_of one) (codes "m") (λ i. inl i) (record { id = far; addr = far })
      (record {
        opened = 9 ∷ 8 ∷ 7 ∷ 6 ∷ 5 ∷ 4 ∷ 3 ∷ 2 ∷ 1 ∷ 0 ∷ [];
        closed = some 9;
        error = none;
      })
      9 (λ i k j e. cc) both_sign-Comes refl refl refl refl refl refl

abbrev packet : Packet
packet = record { to = far; protocol = get_protocol hash; body = codes "m"; sender = hash }

-- The message was taken in.
abbrev passed : Network ℕ MockDb
passed = record {
  nodes =
      with_node far
        (took hash
          (handle_signer toy_libs machine (mock_handler toy_libs) (signer_of one)
            (some (codes "m")))
          signing)
        both_sign.nodes;
  flight = [];
  taken = record { sender = hash; reader = hash } ∷ [];
}

passed-Comes :
    Comes toy_libs machine
      (mock_handler toy_libs)
      mock_SignCalm
      paillier
      makes
      toy_net
      (λ i. one_peer)
      (λ i. manager)
      (λ i. empty_node)
      passed
unfolding must_send target_of clone_peer_manager to_hex_hash to_hex hex_encode get_protocol
passed-Comes =
    after
      (after both_sign-Comes (
        sends near hash (codes "A") (signer_of one) (codes "m") (λ i. inl i)
          (record { id = far; addr = far })
          (record {
            opened = 9 ∷ 8 ∷ 7 ∷ 6 ∷ 5 ∷ 4 ∷ 3 ∷ 2 ∷ 1 ∷ 0 ∷ [];
            closed = some 9;
            error = none;
          })
          9 refl refl refl refl))
      (delivers [] [] packet hash (signer_of one) refl refl refl)

taken_fair_example :
    All (λ (t : Taken). t.sender ≡ t.reader) (record { sender = hash; reader = hash } ∷ [])
taken_fair_example =
    taken_fair toy_libs machine (mock_handler toy_libs) mock_SignCalm paillier makes toy_net
      (λ i. one_peer) (λ i. manager) (λ i. empty_node) (λ i k j e. cc) passed-Comes
