-- ===== src/Peer/Transport.antt =====
-- peer/node.go, and `MustSend` of peer/pm.go. What the network answers is an argument: the
-- outcome of each attempt, by its number.
pub mod Laws
pub mod Retry
use alice_tss.Base.{
  ℕ, zero, suc, ◌+◌, Option, none, some, List, [], ◌∷◌, ◌++◌, ◌⊎◌, inl, inr, Text, Bytes, codes,
  Bool, false, Result, ok, err, panic, ◌>>=◌, Error, nil_dereference,
}
use alice_tss.Libs.{Libs, PrivateKey}
use alice_tss.Codec.BigInt.{ℤ, int_bytes, int_string, decimal}
use alice_tss.Peer.Manager.{Heap, P2pManager, target_of}
use alice_tss.Utils.Keys.{P256Key, to_ecdsa_p256}

-- The destination that a p2p address stands for.
pub record AddrInfo : Type 0 where
  pub id : Text
  pub addr : Text

-- libp2p and multiaddr, as far as the functions below go.
pub record Net : Type 1 where
  pub Stream : Type 0
  pub Host : Type 0
  pub Identity : Type 0
  pub parse_addr : Text → Result Text
  pub addr_info : Text → Result AddrInfo
  pub key_pair : P256Key → Identity
  pub Reader : Type 0
  pub new_rand : ℕ → Reader
  pub generate_key_pair : Reader → Result Identity
  pub id_of : Identity → Result Text
  pub new_host : Text → Identity → Result Host
  pub write : Stream → Bytes → Option Error
  pub close : Stream → Option Error

abbrev pub time_retry_create_stream : ℕ
time_retry_create_stream = 10

module _ (n : Net) where
  -- `fmt.Sprintf("/ip4/127.0.0.1/tcp/%d", port)`
  abbrev listen_addr : ℕ → Text
  listen_addr port = codes "/ip4/127.0.0.1/tcp/" ++ decimal port

  abbrev host_of : Text → n.Identity → Result (n.Host × Text)
  host_of addr key = n.id_of key >>= λ pid. n.new_host addr key >>= λ h. ok (h, pid)

  -- The errors of the key conversion are dropped: without a key the nil identity is dereferenced.
  abbrev identity_of : Result P256Key → Result n.Identity
  identity_of (ok k) = ok (n.key_pair k)
  identity_of (err e) = panic nil_dereference
  identity_of (panic p) = panic p

  -- `MakeBasicHost`
  unfoldable pub make_basic_host : Libs → ℕ → PrivateKey → Result (n.Host × Text)
  make_basic_host l port key = do
    addr ← n.parse_addr (listen_addr port)
    identity ← identity_of (to_ecdsa_p256 l (int_bytes key.d) false)
    host_of addr identity

  -- `generateIdentity`: the port is the seed of the random source.
  unfoldable pub generate_identity : ℕ → Result n.Identity
  generate_identity port = do priv ← n.generate_key_pair (n.new_rand port); ok priv

  -- The nil identity of an error is dereferenced.
  abbrev generated : Result n.Identity → Result n.Identity
  generated (ok k) = ok k
  generated (err e) = panic nil_dereference
  generated (panic p) = panic p

  -- `MakeBasicHostByID`, which drops the error of `generateIdentity`.
  unfoldable pub make_basic_host_by_id : ℕ → Result (n.Host × Text)
  make_basic_host_by_id port = do
    addr ← n.parse_addr (listen_addr port)
    identity ← generated (generate_identity port)
    host_of addr identity

  -- The variables `s` and `err` of the loop in `send`, and the streams opened so far.
  pub record Attempts : Type 0 where
    pub stream : Option n.Stream
    pub error : Option Error
    pub opened : List n.Stream

  abbrev pub no_attempt : Attempts
  no_attempt = record { stream = none; error = none; opened = [] }

  abbrev attempt : Attempts → n.Stream ⊎ Error → Attempts
  attempt a (inl s) = record { stream = some s; error = none; opened = s ∷ a.opened }
  attempt a (inr e) = record { stream = none; error = some e; opened = a.opened }

  -- `for i := 0; i < timeRetryCreateStream; i++`: every round opens a stream, also after a success.
  unfoldable pub create_stream : (ℕ → n.Stream ⊎ Error) → ℕ → ℕ → Attempts → Attempts
  create_stream try zero i a = a
  create_stream try (suc rounds) i a = create_stream try rounds (i + 1) (attempt a (try i))

  -- What `send` did: the streams that it opened, the one that it closed, and the error it returns.
  pub record Sent : Type 0 where
    pub opened : List n.Stream
    pub closed : Option n.Stream
    pub error : Option Error

  abbrev closing : List n.Stream → n.Stream → Option Error → Sent
  closing opened s none = record { opened = opened; closed = some s; error = n.close s }
  closing opened s (some e) = record { opened = opened; closed = none; error = some e }

  abbrev writing : List n.Stream → n.Stream → Bytes ⊎ Error → Sent
  writing opened s (inl bs) = closing opened s (n.write s bs)
  writing opened s (inr e) = record { opened = opened; closed = none; error = some e }

  -- `if s == nil { return err }`
  abbrev sending : Bytes ⊎ Error → Option n.Stream → Option Error → List n.Stream → Sent
  sending payload none e opened = record { opened = opened; closed = none; error = e }
  sending payload (some s) e opened = writing opened s payload

  abbrev refused : Error → Sent
  refused e = record { opened = []; closed = none; error = some e }

  abbrev resolved : (ℕ → n.Stream ⊎ Error) → Bytes ⊎ Error → Result AddrInfo → Result Sent
  resolved try payload (ok info) =
      let a = create_stream try time_retry_create_stream 0 no_attempt in
      ok (sending payload a.stream a.error a.opened)
  resolved try payload (err e) = ok (refused e)
  resolved try payload (panic p) = panic p

  -- `send`: `payload` is what proto or JSON makes of the message.
  unfoldable pub send : (ℕ → n.Stream ⊎ Error) → Text → Bytes ⊎ Error → Result Sent
  unfolding create_stream
  send try target payload = resolved try payload (n.parse_addr target >>= n.addr_info)

  -- `MustSend` of peer/pm.go, to the address that the manager has for the peer; its error is logged and dropped
  -- by the caller.
  unfoldable pub must_send :
      (ℕ → n.Stream ⊎ Error) → Heap → P2pManager → Text → Bytes ⊎ Error → Result Sent
  unfolding send target_of
  must_send try h pm peer_id payload = send try (target_of h pm peer_id) payload

  -- `connect`, over what `host.Connect` answers.
  unfoldable pub connect : (AddrInfo → Option Error) → Text → Result (Unit {0})
  connect dial target = do
    maddr ← n.parse_addr target
    info ← n.addr_info maddr
    elim (dial info) [ none ↦ ok tt | some e ↦ err e ]
