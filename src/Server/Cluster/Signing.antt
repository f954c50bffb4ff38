-- ===== src/Server/Cluster/Signing.antt =====
-- A message is signed by the nodes together: server/rpc_server.go on one of them, and server/rpc_peer.go on the
-- others.
use alice_tss.Base.{
  ℕ, ◌≡◌, refl, ◌∙◌, ◌⊎◌, inl, inr, Option, some, none, List, [], ◌∷◌, ◌++◌, All, Bytes, ap, subst,
  Bool, true, if◌then◌else◌, Text, codes, lookup, lookup-insert, text_eq_refl, Result, ok, err,
  Error,
}
use alice_tss.Types.{SignerConfig}
use alice_tss.Libs.{Libs}
use alice_tss.Json.{Json}
use alice_tss.Utils.Keys.{to_hex_hash}
use alice_tss.Peer.Manager.{Heap, P2pManager, get_protocol, clone_peer_manager, peer_ids}
use alice_tss.Peer.Transport.{AddrInfo}
use alice_tss.Store.Backend.{Codec}
use alice_tss.Store.Handler.{HandlerData}
use alice_tss.Service.Node.{Node}
use alice_tss.Service.Lifecycle.{Event, ends}
use alice_tss.Service.Lifecycle.Services.{SignCalm}
use alice_tss.Server.Requests.{Link, args_for, unmarshal_request}
use alice_tss.Server.Requests.Laws.{AllReply, SomeRefuses}
use alice_tss.Server.Tss.{Alice, SignRequest, spawned, sign_message}
use alice_tss.Server.Tss.Laws.{
  signer_for, started, listening, new_signer_service_lem, final_signer, final_node,
}
use alice_tss.Server.Peers.{peer_sign_message}
use alice_tss.Server.Rpc.{
  Reply, sent, waiting, unmarshal_request_data, read_sign_request, rpc_sign_message,
}
use alice_tss.Server.Rpc.Sign.{
  rpc_sign_message_waits, signature_answer, rpc_sign_message_answers, rpc_sign_message_stuck,
}
use alice_tss.Server.Cluster.{
  ran, rpc_to_peer-ran, Colleague, Returned, outcome_only, Routed, links_to, Addressed, Connects,
  colleague-Replies, colleague-Refuses,
}

module _ (l : Libs) {S : Type 0} (colleagues : Text → Colleague S) where
  -- What a node does for a request to sign that reaches it.
  abbrev pub signs_on : Text → Bytes → Node S
  signs_on k payload =
      let x = colleagues k in (peer_sign_message l x.alice x.handler x.formats payload x.node).1

  -- The node reads the request, and has a share of its key, of which alice makes a signer.
  pub record CanSign (request : SignRequest) (payload : Bytes) (k : Text) : Type 0 where
    pub config : SignerConfig
    pub signer : (colleagues k).alice.signing.M
    pub read : (colleagues k).formats.sign_json payload ≡ ok request
    pub config_there :
        (colleagues k).handler.get_signer_config
          (colleagues k).node.store
          request.hash
          request.pubkey
        ≡ ok config
    pub signer_made :
        signer_for l (colleagues k).alice (colleagues k).handler request config ≡ ok signer

  module _ (request : SignRequest) (payload : Bytes) (k : Text) where
    peer_signs :
        (can : CanSign request payload k)
        → peer_sign_message l
            (colleagues k).alice
            (colleagues k).handler
            (colleagues k).formats
            payload
            (colleagues k).node
          ≡ (
            ok (spawned (started l (colleagues k).alice (colleagues k).handler request can.signer)),
            listening l (colleagues k).alice (colleagues k).handler request (colleagues k).node,
          )
    unfolding peer_sign_message unmarshal_request sign_message
    peer_signs can =
        rw
          (
            can.read,
            can.config_there,
            new_signer_service_lem l (colleagues k).alice (colleagues k).handler request can.config
                can.signer (colleagues k).node can.signer_made,
          )
          refl

    handled :
        CanSign request payload k
        → (remote : Text → Text → Text → Bytes → Unit {0} ⊎ Error) → Routed l colleagues remote
        → remote k (codes "TssPeerService") (codes "SignMessage") payload ≡ inl tt
    handled can remote routed =
        subst
          (λ (r : Result _ × Node S).
            Returned (outcome_only r)
              (remote k (codes "TssPeerService") (codes "SignMessage") payload))
          (peer_signs can) (routed.sign_message k payload)

    signs_on-lem :
        CanSign request payload k
        → signs_on k payload
          ≡ listening l (colleagues k).alice (colleagues k).handler request (colleagues k).node
    signs_on-lem can = rw (peer_signs can, signs_on) refl

    listens :
        CanSign request payload k
        → lookup (get_protocol (to_hex_hash l request.message)) (signs_on k payload).handlers
          ≡ some (to_hex_hash l request.message)
    listens can =
        let hash = to_hex_hash l request.message in
        ap (λ (n : Node S). lookup (get_protocol hash) n.handlers) (signs_on-lem can)
        ∙ lookup-insert (get_protocol hash) (get_protocol hash) hash (colleagues k).node.handlers
        ∙ rw (text_eq_refl (get_protocol hash)) refl

    -- The node reads the request, and its store returns an error for it.
    pub record Refusing : Type 0 where
      pub error : Error
      pub read : (colleagues k).formats.sign_json payload ≡ ok request
      pub no_config :
          (colleagues k).handler.get_signer_config
            (colleagues k).node.store
            request.hash
            request.pubkey
          ≡ err error

    refused :
        (r : Refusing)
        → peer_sign_message l
            (colleagues k).alice
            (colleagues k).handler
            (colleagues k).formats
            payload
            (colleagues k).node
          ≡ (err r.error, (colleagues k).node)
    unfolding peer_sign_message unmarshal_request sign_message
    refused r = rw (r.read, r.no_config) refl

    refused_call :
        (r : Refusing) (remote : Text → Text → Text → Bytes → Unit {0} ⊎ Error)
        → Routed l colleagues remote
        → (x : Error) × (remote k (codes "TssPeerService") (codes "SignMessage") payload ≡ inr x)
    refused_call r remote routed =
        subst
          (λ (r : Result _ × Node S).
            Returned (outcome_only r)
              (remote k (codes "TssPeerService") (codes "SignMessage") payload))
          (refused r) (routed.sign_message k payload)

module _ (l : Libs) (a : Alice) (c : Codec) {S : Type 0} (h : HandlerData S) (calm : SignCalm h)
    (colleagues : Text → Colleague S) (parse_addr : Text → Text ⊎ Error)
    (addr_info : Text → AddrInfo ⊎ Error) (dials : Text → ℕ → Option Error)
    (remote : Text → Text → Text → Bytes → Unit {0} ⊎ Error) (routed : Routed l colleagues remote)
    (text_of : c.Doc → Bytes) (peers : Heap) (pm : P2pManager) (fuel : ℕ) where
  -- The manager of a request, and the ids of its peers.
  abbrev pub for_message : SignRequest → P2pManager
  for_message request = clone_peer_manager pm (get_protocol (to_hex_hash l request.message))

  abbrev pub known : SignRequest → List Text
  known request = peer_ids peers (for_message request)

  -- The peer can be reached, and signs.
  abbrev pub Signs : SignRequest → Bytes → Text → Type 0
  Signs request payload k =
      Addressed parse_addr addr_info dials remote peers (for_message request) k
      × Connects parse_addr addr_info dials remote fuel k
      × CanSign l colleagues request payload k

  all_reply :
      (request : SignRequest) (payload : Bytes) (ids : List Text)
      → All (Signs request payload) ids
      → AllReply
          (links_to parse_addr addr_info dials remote)
          fuel
          (args_for peers
            (for_message request)
            (codes "TssPeerService")
            (codes "SignMessage")
            payload)
          ids
  all_reply request payload [] all = tt
  all_reply request payload (k ∷ ids) all = (
    colleague-Replies parse_addr addr_info dials remote peers (for_message request)
        (codes "TssPeerService") (codes "SignMessage") k payload all.0.0 fuel all.0.1
        (handled l colleagues request payload k all.0.2 remote routed),
    all_reply request payload ids all.1,
  )

  -- The peer's node after the call of the handler of the client's node: its own handler has run if that call
  -- has come back with its reply.
  abbrev pub reached_by : SignRequest → Bytes → Text → Bool
  reached_by request payload k =
      ran
        (sent l a c h (links_to parse_addr addr_info dials remote) text_of peers pm fuel
          (to_hex_hash l request.message) (codes "SignMessage") payload)
        k

  abbrev pub node_behind : SignRequest → Bytes → Text → Node S
  node_behind request payload k =
      if reached_by request payload k then signs_on l colleagues k payload else (colleagues k).node

  -- There it hands the signer of the message the streams of its protocol.
  abbrev pub Listens : SignRequest → Bytes → Text → Type 0
  Listens request payload k =
      lookup (get_protocol (to_hex_hash l request.message)) (node_behind request payload k).handlers
      ≡ some (to_hex_hash l request.message)

  all_listen :
      (request : SignRequest) (payload : Bytes) (ids : List Text)
      → All (Signs request payload) ids
      → All (λ k. reached_by request payload k ≡ true) ids
      → All (Listens request payload) ids
  all_listen request payload [] all reached = tt
  all_listen request payload (k ∷ ids) all reached = (
    rw reached.0 (listens l colleagues request payload k all.0.2),
    all_listen request payload ids all.1 reached.1,
  )

  -- As below, without the other network.
  pub signs_together :
      (value : Json) (events : List Event) (n : Node S) (request : SignRequest) (doc : c.Doc)
      (cfg : SignerConfig) (m : a.signing.M)
      → unmarshal_request_data c read_sign_request value ≡ ok request
      → c.marshal value ≡ ok doc
      → h.get_signer_config n.store request.hash request.pubkey ≡ ok cfg
      → signer_for l a h request cfg ≡ ok m
      → All (Signs request (text_of doc)) (known request)
      → ends events ≡ 1
      → All (Listens request (text_of doc)) (known request)
        × (rpc_sign_message l a c h
              (links_to parse_addr addr_info dials remote)
              text_of
              peers
              pm
              fuel
              value
              events
              n
            ≡ (
              signature_answer
                  (to_hex_hash l request.message)
                  (a.signing.get_result (final_signer l a h m events)),
              final_node l a h request m events n,
            ))
        × (lookup
              (get_protocol (to_hex_hash l request.message))
              (final_node l a h request m events n).handlers
            ≡ none)
  signs_together value events n request doc cfg m asked written there made all one =
      let (answer, gone) =
        rpc_sign_message_answers l a c h calm (links_to parse_addr addr_info dials remote) text_of
          peers pm fuel value events n request doc cfg m asked written there made
          (all_reply request (text_of doc) (known request) all) one in
      let reached =
        rpc_to_peer-ran (links_to parse_addr addr_info dials remote) fuel peers
          (for_message request) (codes "TssPeerService") (codes "SignMessage") (text_of doc)
          (all_reply request (text_of doc) (known request) all) in
      (all_listen request (text_of doc) (known request) all reached, answer, gone)

  -- A request that can be read and written again, for a configuration that is stored and makes a signer, where
  -- gorpc calls the handlers of the peers, and each of the known peers has a well-formed address, lets the node
  -- connect at some attempt within the fuel, reads the request alike and has a configuration for it that makes
  -- a signer; where no save of a signature panics and the protocol reports exactly one end: the call that the
  -- client's handler makes comes back with a reply of each peer, whose handler has thus run, has made its
  -- signer and hands it the streams of the message; the client gets the signature of the protocol that has
  -- taken in all messages and was stopped, in hexadecimal and with the hash of the message, or an error where
  -- that has no result; and once the state change is over, the host of the client's node has no stream handler
  -- left for the message. Over any network on which that call does not come back, the handler waits for it.
  pub cluster_signs :
      (value : Json) (events : List Event) (n : Node S) (request : SignRequest) (doc : c.Doc)
      (cfg : SignerConfig) (m : a.signing.M) (silent : Text → ℕ → Link (Unit {0}))
      → unmarshal_request_data c read_sign_request value ≡ ok request
      → c.marshal value ≡ ok doc
      → h.get_signer_config n.store request.hash request.pubkey ≡ ok cfg
      → signer_for l a h request cfg ≡ ok m
      → All (Signs request (text_of doc)) (known request)
      → ends events ≡ 1
      → sent l a c h silent text_of peers pm fuel
          (to_hex_hash l request.message)
          (codes "SignMessage")
          (text_of doc)
        ≡ none
      → All (Listens request (text_of doc)) (known request)
        × (rpc_sign_message l a c h
              (links_to parse_addr addr_info dials remote)
              text_of
              peers
              pm
              fuel
              value
              events
              n
            ≡ (
              signature_answer
                  (to_hex_hash l request.message)
                  (a.signing.get_result (final_signer l a h m events)),
              final_node l a h request m events n,
            ))
        × (lookup
              (get_protocol (to_hex_hash l request.message))
              (final_node l a h request m events n).handlers
            ≡ none)
        × ((rpc_sign_message l a c h silent text_of peers pm fuel value events n).0 ≡ ok waiting)
  cluster_signs value events n request doc cfg m silent asked written there made all one unheard =
      let (listen, answer, gone) =
        signs_together value events n request doc cfg m asked written there made all one in
      (
        listen,
        answer,
        gone,
        ap (λ (r : Result Reply × Node S). r.0)
            (rpc_sign_message_waits l a c h calm silent text_of peers pm fuel value events n request
              doc cfg m asked written there made unheard),
      )

  some_refuses :
      (request : SignRequest) (payload : Bytes) (before after : List Text) (k : Text)
      → Addressed parse_addr addr_info dials remote peers (for_message request) k
      → Refusing l colleagues request payload k
      → SomeRefuses
          (links_to parse_addr addr_info dials remote)
          fuel
          (args_for peers
            (for_message request)
            (codes "TssPeerService")
            (codes "SignMessage")
            payload)
          (before ++ (k ∷ after))
  some_refuses request payload [] after k addressed r =
      let (x, e) = refused_call l colleagues request payload k r remote routed in
      inl (
        colleague-Refuses parse_addr addr_info dials remote peers (for_message request)
          (codes "TssPeerService") (codes "SignMessage") k payload addressed fuel x e)
  some_refuses request payload (j ∷ before) after k addressed r =
      inr (some_refuses request payload before after k addressed r)

  -- A request that can be read and written again, for a configuration that is stored and makes a signer, where
  -- gorpc calls the handlers of the peers, and one of the known peers, with a well-formed address, reads the
  -- request alike and its store has no configuration for it but an error, which gorpc passes on as an error:
  -- whatever the other peers, the attempts to connect, the course of the protocol and the number of rounds of the
  -- loop, the handler of the client's node is still waiting for the peers after them, nothing is stored, and the
  -- host keeps the stream handler for the message.
  pub cluster_stuck :
      (value : Json) (events : List Event) (n : Node S) (request : SignRequest) (doc : c.Doc)
      (cfg : SignerConfig) (m : a.signing.M) (before after : List Text) (k : Text)
      → unmarshal_request_data c read_sign_request value ≡ ok request
      → c.marshal value ≡ ok doc
      → h.get_signer_config n.store request.hash request.pubkey ≡ ok cfg
      → signer_for l a h request cfg ≡ ok m
      → known request ≡ before ++ (k ∷ after)
      → Addressed parse_addr addr_info dials remote peers (for_message request) k
      → Refusing l colleagues request (text_of doc) k
      → (n' : Node S) × (rpc_sign_message l a c h
            (links_to parse_addr addr_info dials remote)
            text_of
            peers
            pm
            fuel
            value
            events
            n
          ≡ (ok waiting, n'))
        × (n'.store ≡ n.store)
        × (lookup (get_protocol (to_hex_hash l request.message)) n'.handlers
            ≡ some (to_hex_hash l request.message))
  cluster_stuck value events n request doc cfg m before after k asked written there made among
        addressed r =
      rpc_sign_message_stuck l a c h calm (links_to parse_addr addr_info dials remote) text_of peers
        pm fuel value events n request doc cfg m asked written there made
        (rw among (some_refuses request (text_of doc) before after k addressed r))
