-- ===== src/Server/Requests/Order.antt =====
-- The order in which Go goes through the map of peers, which is another on each run: server/utils.go.
use mathlib.Core.Bool.{Bool-set}
use mathlib.Core.Logic.{∥∥₁_elim}
use mathlib.Core.List.{Perm, Permᴰ}
use native.Mathlib.Nat.{ℕ_set}
use alice_tss.Base.{
  ℕ, ◌%◌, ◌^◌, ◌≡◌, refl, ◌∙◌, ap, fun_ext, Bool, true, false, Option, none, some, List, [], ◌∷◌,
  ◌++◌, Bytes, Text, Dict, IsMap,
}
use alice_tss.Base.Reorder.{all_of, all_of-perm, length-perm, lookup-perm}
use alice_tss.Peer.Manager.{Heap, P2pManager, map_at, keys, peer_ids, num_peers, target_of}
use alice_tss.Peer.Transport.Retry.{retry}
use alice_tss.Server.Requests.{
  Link, PeerArgs, args_for, msg_to_peer, send_to_peer, send_to_all, rpc_to_peer,
}

abbrev pub is_some : {A : Type 0} → Option A → Bool
is_some none = false
is_some (some x) = true

all_of-keys :
    (test : Text → Bool) (m : Dict Text)
    → all_of test (keys m) ≡ all_of (λ (a : Text × Text). test a.0) m
all_of-keys test [] = refl
all_of-keys test ((k, v) ∷ m) = rw (all_of-keys test m) refl

module _ {Reply : Type 0} (links : Text → ℕ → Link Reply) (fuel : ℕ) where
  -- Some attempt at the peer succeeds within the fuel.
  abbrev reached : (Text → PeerArgs) → Text → Bool
  reached args k = is_some (retry (λ i. msg_to_peer (links k i) (args k)) fuel 0)

  one_more :
      (args : Text → PeerArgs) (k : Text) (ids : List Text) (sent : List (Text × Reply))
      (r : Option (Reply × ℕ))
      → retry (λ i. msg_to_peer (links k i) (args k)) fuel 0 ≡ r
      → ((more : List (Text × Reply))
          → is_some (send_to_all links args fuel ids 0 more) ≡ all_of (reached args) ids)
      → is_some (send_to_all links args fuel (k ∷ ids) 0 sent) ≡ all_of (reached args) (k ∷ ids)
  unfolding send_to_all send_to_peer
  one_more args k ids sent none q rest = rw (send_to_all, q) refl
  one_more args k ids sent (some (reply, i)) q rest =
      rw (send_to_all, q) (rest (sent ++ (k, reply) ∷ []))

  send_to_all-reached :
      (args : Text → PeerArgs) (ids : List Text) (sent : List (Text × Reply))
      → is_some (send_to_all links args fuel ids 0 sent) ≡ all_of (reached args) ids
  unfolding send_to_all
  send_to_all-reached args [] sent = refl
  send_to_all-reached args (k ∷ ids) sent =
      one_more args k ids sent _ refl (λ more. send_to_all-reached args ids more)

  reached_by :
      (peers : Heap) (pm : P2pManager) (svc_name svc_method : Text) (payload : Bytes)
      → is_some (rpc_to_peer links peers pm svc_name svc_method payload fuel)
        ≡ all_of
            (λ (a : Text × Text). reached (args_for peers pm svc_name svc_method payload) a.0)
            (map_at peers pm.peers)
  unfolding rpc_to_peer peer_ids
  reached_by peers pm svc_name svc_method payload =
      send_to_all-reached (args_for peers pm svc_name svc_method payload)
        (keys (map_at peers pm.peers)) []
      ∙ all_of-keys (reached (args_for peers pm svc_name svc_method payload))
          (map_at peers pm.peers)

-- Two states of the maps in which the manager's peers are the same, each with its address, in any order.
pub record SamePeers (peers peers' : Heap) (pm : P2pManager) : Type 0 where
  pub is_map : IsMap (map_at peers pm.peers)
  pub same : Perm (map_at peers pm.peers) (map_at peers' pm.peers)

module _ (peers peers' : Heap) (pm : P2pManager) (s : SamePeers peers peers' pm) where
  pub num_peers-perm : num_peers peers pm ≡ num_peers peers' pm
  unfolding num_peers
  num_peers-perm = ∥∥₁_elim s.same (ℕ_set _ _) (λ p. ap (λ (n : ℕ). n % 2 ^ 32) (length-perm p))

  module _ {Reply : Type 0} (links : Text → ℕ → Link Reply) (fuel : ℕ) (svc_name svc_method : Text)
      (payload : Bytes) where
    args_for-perm :
        Permᴰ (map_at peers pm.peers) (map_at peers' pm.peers)
        → (k : Text)
        → args_for peers pm svc_name svc_method payload k
          ≡ args_for peers' pm svc_name svc_method payload k
    unfolding target_of
    args_for-perm p k = rw (lookup-perm k p s.is_map) refl

    reached-perm :
        Permᴰ (map_at peers pm.peers) (map_at peers' pm.peers)
        → is_some (rpc_to_peer links peers pm svc_name svc_method payload fuel)
          ≡ is_some (rpc_to_peer links peers' pm svc_name svc_method payload fuel)
    reached-perm p =
        rw
          (
            reached_by links fuel peers pm svc_name svc_method payload,
            reached_by links fuel peers' pm svc_name svc_method payload,
          )
          (ap
              (λ (f : Text → PeerArgs).
                all_of (λ (a : Text × Text). reached links fuel f a.0) (map_at peers pm.peers))
              (fun_ext (args_for-perm p))
            ∙ all_of-perm
                (λ (a : Text × Text).
                  reached links fuel (args_for peers' pm svc_name svc_method payload) a.0)
                p)

    -- Whether the call to the peers comes back does not depend on their order.
    pub rpc_to_peer-perm :
        is_some (rpc_to_peer links peers pm svc_name svc_method payload fuel)
        ≡ is_some (rpc_to_peer links peers' pm svc_name svc_method payload fuel)
    rpc_to_peer-perm = ∥∥₁_elim s.same (Bool-set _ _) reached-perm
