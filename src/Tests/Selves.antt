-- ===== src/Tests/Selves.antt =====
-- The theorems on the self service, each at three concrete hosts.
use alice_tss.Base.{
  node_failed, ℕ, ◌≡◌, [], ◌∷◌, codes, ok, err, lib, ◌==◌, if◌then◌else◌, Result, arith,
}
use alice_tss.Server.SelfService.{Member, new_self_service}
use alice_tss.Server.SelfService.Laws.{new_self_service_lem}

-- The third port is taken.
abbrev taken_port : ℕ → Result (Member ℕ)
taken_port port = if port == 11113 then err (lib 4) else ok (port, codes "id")

new_self_service_lem_example :
    new_self_service taken_port ≡ (err (node_failed 2 (lib 4)), 11111 ∷ 11112 ∷ [])
new_self_service_lem_example = new_self_service_lem taken_port (λ port x e. ground arith)
