-- ===== src/Server/Requests/Laws.antt =====
-- A node that sends a request to its peers reaches each of them, once.
use alice_tss.Base.{
  ℕ, ◌+◌, ◌-◌, ◌<◌, ◌≡◌, refl, ◌∙◌, ap, ◌⊎◌, inr, Option, none, some, List, [], ◌∷◌, ◌++◌,
  append-nil, append_assoc, inl, Bytes, Text,
}
use alice_tss.Peer.Manager.{Heap, P2pManager, peer_ids}
use alice_tss.Peer.Transport.Retry.{retry, retry_lem, retry-Fails, Fails}
use alice_tss.Server.Requests.{
  Link, PeerArgs, args_for, msg_to_peer, send_to_peer, send_to_all, rpc_to_peer,
}

module _ {Reply : Type 0} (links : Text → ℕ → Link Reply) (fuel : ℕ) where
  -- With some attempt within the fuel, the peer replies, and does not before.
  pub record Replies (args : Text → PeerArgs) (k : Text) : Type 0 where
    pub first : ℕ
    pub reply : Reply
    pub in_time : first < fuel
    pub fails_before : (m : ℕ) → m < first → Fails (λ i. msg_to_peer (links k i) (args k)) (0 + m)
    pub replies : msg_to_peer (links k (0 + first)) (args k) ≡ inl reply

  abbrev pub AllReply : (Text → PeerArgs) → List Text → Type 0
  AllReply args [] = Unit
  AllReply args (k ∷ ids) = Replies args k × AllReply args ids

  abbrev pub replies_of :
      (args : Text → PeerArgs) (ids : List Text) → AllReply args ids → List (Text × Reply)
  replies_of args [] h = []
  replies_of args (k ∷ ids) h = (k, h.0.reply) ∷ replies_of args ids h.1

  send_to_all_lem :
      (args : Text → PeerArgs) (ids : List Text) (sent : List (Text × Reply))
      (h : AllReply args ids)
      → send_to_all links args fuel ids 0 sent ≡ some (sent ++ replies_of args ids h)
  unfolding send_to_all send_to_peer
  send_to_all_lem args [] sent h = rw (append-nil sent)
  send_to_all_lem args (k ∷ ids) sent h =
      rw
        (
          send_to_all,
          retry_lem (λ i. msg_to_peer (links k i) (args k)) h.0.first fuel 0 h.0.reply h.0.in_time
              h.0.fails_before h.0.replies,
        )
        (send_to_all_lem args ids (sent ++ (k, h.0.reply) ∷ []) h.1
          ∙ ap some (append_assoc sent ((k, h.0.reply) ∷ []) (replies_of args ids h.1)))

  -- Where each known peer replies to some attempt within the fuel, the call to the peers returns, with the
  -- first reply of each peer, in the order of the ids.
  pub rpc_to_peer_lem :
      (h : Heap) (pm : P2pManager) (svc_name svc_method : Text) (payload : Bytes)
      (all : AllReply (args_for h pm svc_name svc_method payload) (peer_ids h pm))
      → rpc_to_peer links h pm svc_name svc_method payload fuel
        ≡ some (replies_of (args_for h pm svc_name svc_method payload) (peer_ids h pm) all)
  unfolding rpc_to_peer
  rpc_to_peer_lem h pm svc_name svc_method payload all =
      send_to_all_lem (args_for h pm svc_name svc_method payload) (peer_ids h pm) [] all

  -- Every attempt at the peer fails: it cannot be reached, or refuses what it is sent.
  abbrev pub Refuses : (Text → PeerArgs) → Text → Type 0
  Refuses args k = (m : ℕ) → Fails (λ i. msg_to_peer (links k i) (args k)) m

  abbrev pub SomeRefuses : (Text → PeerArgs) → List Text → Type 0
  SomeRefuses args [] = ⊥
  SomeRefuses args (k ∷ ids) = Refuses args k ⊎ SomeRefuses args ids

  behind_stuck :
      (args : Text → PeerArgs) (k : Text) (ids : List Text) (wg : ℕ) (sent : List (Text × Reply))
      (r : Option (Reply × ℕ))
      → retry (λ i. msg_to_peer (links k i) (args k)) fuel 0 ≡ r
      → ((more : List (Text × Reply)) → send_to_all links args fuel ids (wg + 1 - 1) more ≡ none)
      → send_to_all links args fuel (k ∷ ids) wg sent ≡ none
  unfolding send_to_all send_to_peer
  behind_stuck args k ids wg sent none q rest = rw (send_to_all, q) refl
  behind_stuck args k ids wg sent (some (reply, i)) q rest =
      rw (send_to_all, q) (rest (sent ++ (k, reply) ∷ []))

  send_to_all_stuck :
      (args : Text → PeerArgs) (ids : List Text) (wg : ℕ) (sent : List (Text × Reply))
      → SomeRefuses args ids
      → send_to_all links args fuel ids wg sent ≡ none
  unfolding send_to_all send_to_peer
  send_to_all_stuck args [] wg sent h = absurd h
  send_to_all_stuck args (k ∷ ids) wg sent (inl refuses) =
      rw (send_to_all, retry-Fails (λ i. msg_to_peer (links k i) (args k)) fuel 0 refuses) refl
  send_to_all_stuck args (k ∷ ids) wg sent (inr later) =
      behind_stuck args k ids wg sent _ refl
        (λ more. send_to_all_stuck args ids (wg + 1 - 1) more later)

  -- Where one of the known peers fails at every attempt, the call to the peers never comes back, whatever
  -- the fuel.
  pub rpc_to_peer_stuck :
      (h : Heap) (pm : P2pManager) (svc_name svc_method : Text) (payload : Bytes)
      → SomeRefuses (args_for h pm svc_name svc_method payload) (peer_ids h pm)
      → rpc_to_peer links h pm svc_name svc_method payload fuel ≡ none
  unfolding rpc_to_peer
  rpc_to_peer_stuck h pm svc_name svc_method payload refused =
      send_to_all_stuck (args_for h pm svc_name svc_method payload) (peer_ids h pm) 0 [] refused
