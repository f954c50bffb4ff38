-- ===== src/Server/SelfService/Laws.antt =====
-- No host of the self service is lost, and its nodes wait for each other.
use alice_tss.Base.{
  ℕ, ◌+◌, ◌≡◌, ◌≢◌, refl, ◌∙◌, ap, true, ◌⊎◌, inl, inr, Option, none, some, sym, List, [], ◌∷◌,
  ◌++◌, subst, node_failed, append-nil, append_assoc, Result, ok, err, panic, Panic, Error, timeout,
  Bool-cases,
}
use alice_tss.Server.SelfService.{
  Member, self_ports, hosts_of, make_hosts, new_self_service, close_hosts, close_self_service,
  shutdown, all_connected, wait_for_peers,
}

module _ {Host : Type 0} where
  -- The hosts that are made before the first error.
  abbrev pub made_before : (ℕ → Result (Member Host)) → List ℕ → List Host
  made_before make [] = []
  made_before make (port ∷ ports) = elim (make port) [
    | ok m ↦ m.0 ∷ made_before make ports
    | err e ↦ []
    | panic x ↦ []
  ]

  -- The first port, by its index, for which no host is made, and the error.
  abbrev pub first_error : (ℕ → Result (Member Host)) → ℕ → List ℕ → Option (ℕ × Error)
  first_error make i [] = none
  first_error make i (port ∷ ports) = elim (make port) [
    | ok m ↦ first_error make (i + 1) ports
    | err e ↦ some (i, e)
    | panic x ↦ none
  ]

  hosts_of-append : (ms ns : List (Member Host)) → hosts_of (ms ++ ns) ≡ hosts_of ms ++ hosts_of ns
  hosts_of-append [] ns = refl
  hosts_of-append (m ∷ ms) ns = ap (λ t. m.0 ∷ t) (hosts_of-append ms ns)

  -- Without an error all hosts are kept and none is closed; with one, that is returned and all are closed.
  abbrev pub KeptOrClosed :
      Option (ℕ × Error) → List Host → Result (List (Member Host)) × List Host → Type 0
  KeptOrClosed none hosts r = (ms : List (Member Host)) × (r ≡ (ok ms, [])) × (hosts_of ms ≡ hosts)
  KeptOrClosed (some (i, e)) hosts r = r ≡ (err (node_failed i e), hosts)

  abbrev Made : (ℕ → Result (Member Host)) → ℕ → List ℕ → List (Member Host) → Type 0
  Made make i ports made =
      KeptOrClosed (first_error make i ports) (hosts_of made ++ made_before make ports)
        (make_hosts make i ports made)

  next_port :
      (make : ℕ → Result (Member Host)) (i port : ℕ) (ports : List ℕ) (made : List (Member Host))
      (r : Result (Member Host))
      → ((x : Panic) → make port ≢ panic x)
      → ((ms : List (Member Host)) → Made make (i + 1) ports ms)
      → make port ≡ r
      → Made make i (port ∷ ports) made
  unfolding make_hosts
  next_port make i port ports made (ok m) calm rest e =
      let same : hosts_of (made ++ m ∷ []) ++ made_before make ports
          ≡ hosts_of made ++ m.0 ∷ made_before make ports =
        ap (λ t. t ++ made_before make ports) (hosts_of-append made (m ∷ []))
        ∙ append_assoc (hosts_of made) (m.0 ∷ []) (made_before make ports) in
      rw (make_hosts, made_before, first_error, e)
        (subst
          (λ hosts.
            KeptOrClosed (first_error make (i + 1) ports) hosts
              (make_hosts make (i + 1) ports (made ++ m ∷ [])))
          same (rest (made ++ m ∷ [])))
  next_port make i port ports made (err x) calm rest e =
      rw (make_hosts, made_before, first_error, e)
        (ap (λ hosts. (err (node_failed i x), hosts)) (sym (append-nil (hosts_of made))))
  next_port make i port ports made (panic x) calm rest e = absurd (calm x e)

  made_lem :
      (make : ℕ → Result (Member Host)) (i : ℕ) (ports : List ℕ) (made : List (Member Host))
      → ((port : ℕ) (x : Panic) → make port ≢ panic x)
      → Made make i ports made
  unfolding make_hosts
  made_lem make i [] made calm = (made, refl, sym (append-nil (hosts_of made)))
  made_lem make i (port ∷ ports) made calm =
      next_port make i port ports made (make port) (calm port)
        (λ ms. made_lem make (i + 1) ports ms calm) refl

  -- Where making a host does not panic: if a host is made for every port, the new service has exactly those
  -- hosts and none is closed; otherwise the error of the first port without a host is returned, with its
  -- index, and exactly the hosts that were made before it are closed.
  pub new_self_service_lem :
      (make : ℕ → Result (Member Host))
      → ((port : ℕ) (x : Panic) → make port ≢ panic x)
      → KeptOrClosed
          (first_error make 0 self_ports)
          (made_before make self_ports)
          (new_self_service make)
  unfolding new_self_service
  new_self_service_lem make calm = made_lem make 0 self_ports [] calm

  -- The hosts that are there.
  abbrev pub present : List (Option Host) → List Host
  present [] = []
  present (none ∷ hosts) = present hosts
  present (some h ∷ hosts) = h ∷ present hosts

  -- Every host that is there closes without an error.
  abbrev pub AllClose : (Host → Option Error) → List (Option Host) → Type 0
  AllClose close [] = Unit
  AllClose close (none ∷ hosts) = AllClose close hosts
  AllClose close (some h ∷ hosts) = (close h ≡ none) × AllClose close hosts

  closed_lem :
      (close : Host → Option Error) (i : ℕ) (hosts : List (Option Host))
      → (close_hosts close i hosts).0 ≡ present hosts
  unfolding close_hosts
  closed_lem close i [] = refl
  closed_lem close i (none ∷ hosts) = closed_lem close (i + 1) hosts
  closed_lem close i (some h ∷ hosts) = ap (λ t. h ∷ t) (closed_lem close (i + 1) hosts)

  errors_lem :
      (close : Host → Option Error) (i : ℕ) (hosts : List (Option Host))
      → AllClose close hosts
      → (close_hosts close i hosts).1 ≡ []
  unfolding close_hosts
  errors_lem close i [] h = refl
  errors_lem close i (none ∷ hosts) h = errors_lem close (i + 1) hosts h
  errors_lem close i (some x ∷ hosts) h = rw h.0 (errors_lem close (i + 1) hosts h.1)

  -- `Close` closes every host that is there, in order, also those behind one that fails to close.
  pub close_self_service_lem :
      (close : Host → Option Error) (hosts : List (Option Host))
      → (close_self_service close hosts).0 ≡ present hosts
  unfolding close_self_service
  close_self_service_lem close hosts = closed_lem close 0 hosts

  -- Where each of them closes without an error, it returns none.
  pub close_self_service_ok :
      (close : Host → Option Error) (hosts : List (Option Host))
      → AllClose close hosts
      → (close_self_service close hosts).1 ≡ ok tt
  unfolding close_self_service
  close_self_service_ok close hosts h = ap shutdown (errors_lem close 0 hosts h)

-- Some tick finds all three nodes with the peers that they need.
abbrev pub Connects : List (List (Option ℕ)) → Type 0
Connects [] = ⊥
Connects (counts ∷ ticks) = (all_connected counts ≡ true) ⊎ Connects ticks

-- The wait succeeds exactly if some tick before the time is up finds each of the managers there, with at
-- least two peers, and is a timeout otherwise.
pub wait_for_peers_lem :
    (ticks : List (List (Option ℕ)))
    → (Connects ticks × (wait_for_peers ticks ≡ ok tt))
      ⊎ ((¬ Connects ticks) × (wait_for_peers ticks ≡ err timeout))
unfolding wait_for_peers
wait_for_peers_lem [] = inr (λ x. x, refl)
wait_for_peers_lem (counts ∷ ticks) = elim (Bool-cases (all_connected counts)) [
  | inl hit ↦ inl (inl hit, rw hit refl)
  | inr miss ↦ elim (wait_for_peers_lem ticks) [
    | inl (c, e) ↦ inl (inr c, rw miss e)
    | inr (n, e) ↦ inr (λ h. elim h [ inl hit ↦ cc | inr c ↦ n c ], rw miss e)
  ]
]
