-- ===== src/Tests/Lives.antt =====
-- The theorems on the services, each at a concrete protocol and a concrete run of it.
use alice_tss.Base.{
  true, ℕ, Text, ◌+◌, ◌≡◌, refl, false, none, some, List, [], ◌∷◌, Bytes, codes, lookup, ok, panic,
  arith, close_of_closed_channel,
}
use alice_tss.Libs.{ReshareOutcome, SignOutcome}
use alice_tss.Codec.BigInt.{pos}
use alice_tss.Peer.Manager.{get_protocol}
use alice_tss.Store.Mock.{
  MockDb, new_mock_db, mock_save_dkg_result_data, mock_update_dkg_result_data,
  mock_save_signer_result_data,
}
use alice_tss.Store.Handler.{mock_handler}
use alice_tss.Service.Node.{state_init, state_done, state_failed, Machine, Service, Node}
use alice_tss.Service.Dkg.{handle_dkg, on_dkg_state_changed}
use alice_tss.Service.Reshare.{handle_reshare, on_reshare_state_changed}
use alice_tss.Service.Signer.{handle_signer, on_signer_state_changed}
use alice_tss.Service.Lifecycle.{Event, received, changed, run, process}
use alice_tss.Service.Lifecycle.Services.{SaveCalm, SignCalm, UpdateCalm}
use alice_tss.Service.Lifecycle.Signers.{signer_process_returns, signer_second_end}
use alice_tss.Service.Lifecycle.Reshares.{reshare_process_returns}
use alice_tss.Service.Lifecycle.Dkgs.{dkg_process_returns}
use alice_tss.Tests.Toys.{toy_libs, toy_outcome}

-- A protocol that counts its messages and ends with `out`.
abbrev pub toy_machine : {Out : Type 0} → Out → Machine Out
toy_machine {Out} out = record {
  M = ℕ;
  Message = Bytes;
  unmarshal = some;
  add_message = λ m x. some (m + 1);
  start = λ m. m;
  stop = λ m. m;
  get_result = λ m. some out;
}

abbrev pub sign_outcome : SignOutcome
sign_outcome = record { r = pos 11; s = pos 13 }

abbrev pub reshare_outcome : ReshareOutcome
reshare_outcome = record { share = pos 9 }

pub mock_SaveCalm : SaveCalm (mock_handler toy_libs)
unfolding mock_save_dkg_result_data
mock_SaveCalm s k d x e = cc

pub mock_SignCalm : SignCalm (mock_handler toy_libs)
unfolding mock_save_signer_result_data
mock_SignCalm s k d x e = cc

mock_UpdateCalm : (s : MockDb) (k : Text) → UpdateCalm (mock_handler toy_libs) s k
unfolding mock_update_dkg_result_data
mock_UpdateCalm s k d x e = cc

abbrev pub fresh : Service ℕ
fresh = record { machine = 0; hash = codes "h"; done_closed = false }

abbrev mock_node : Node MockDb
mock_node = record { handlers = (get_protocol (codes "h"), codes "h") ∷ []; store = new_mock_db }

-- The service and the nodes after one message and one end.
abbrev counted : Service ℕ
counted = record { machine = 1; hash = codes "h"; done_closed = true }

abbrev quiet_node : Node MockDb
quiet_node = record { handlers = []; store = new_mock_db }

abbrev saved_node : Node MockDb
saved_node = record {
  handlers = mock_node.handlers;
  store = (mock_save_dkg_result_data toy_libs new_mock_db (codes "h") toy_outcome).1;
}

abbrev pub one_end : List Event
one_end = changed state_init ∷ received (some (codes "m")) ∷ changed state_done ∷ received none ∷ []

abbrev two_ends : List Event
two_ends = changed state_init ∷ changed state_done ∷ changed state_failed ∷ []

signer_process_returns_example :
    (process
        (λ m. m)
        (λ m. m)
        (handle_signer toy_libs (toy_machine sign_outcome) (mock_handler toy_libs))
        (on_signer_state_changed toy_libs (toy_machine sign_outcome) (mock_handler toy_libs))
        one_end
        fresh
        mock_node
      ≡ ok (some (counted, quiet_node)))
    × (lookup (get_protocol (codes "h")) quiet_node.handlers ≡ none)
unfolding get_protocol mock_save_signer_result_data
signer_process_returns_example =
    signer_process_returns toy_libs (toy_machine sign_outcome) (mock_handler toy_libs) mock_SignCalm
      one_end fresh mock_node refl refl

signer_second_end_example :
    run
      (handle_signer toy_libs (toy_machine sign_outcome) (mock_handler toy_libs))
      (on_signer_state_changed toy_libs (toy_machine sign_outcome) (mock_handler toy_libs))
      two_ends
      fresh
      mock_node
    ≡ panic close_of_closed_channel
signer_second_end_example =
    signer_second_end toy_libs (toy_machine sign_outcome) (mock_handler toy_libs) mock_SignCalm
      two_ends fresh mock_node refl (omega arith)

reshare_process_returns_example :
    (process
        (λ m. m)
        (λ m. m)
        (handle_reshare toy_libs (toy_machine reshare_outcome) (mock_handler toy_libs))
        (on_reshare_state_changed toy_libs (toy_machine reshare_outcome) (mock_handler toy_libs))
        one_end
        fresh
        mock_node
      ≡ ok (some (counted, quiet_node)))
    × (lookup (get_protocol (codes "h")) quiet_node.handlers ≡ none)
unfolding get_protocol mock_update_dkg_result_data
reshare_process_returns_example =
    reshare_process_returns toy_libs (toy_machine reshare_outcome) (mock_handler toy_libs) one_end
      fresh mock_node (mock_UpdateCalm new_mock_db (codes "h")) refl refl

dkg_process_returns_example :
    (process
        (λ m. m)
        (λ m. m)
        (handle_dkg (toy_machine toy_outcome) (mock_handler toy_libs))
        (on_dkg_state_changed (toy_machine toy_outcome) (mock_handler toy_libs))
        one_end
        fresh
        mock_node
      ≡ ok (some (counted, saved_node)))
    × (saved_node.handlers ≡ mock_node.handlers)
unfolding mock_save_dkg_result_data
dkg_process_returns_example =
    dkg_process_returns (toy_machine toy_outcome) (mock_handler toy_libs) mock_SaveCalm one_end
      fresh mock_node refl refl
