-- ===== src/Service/Lifecycle/Services.antt =====
-- What the ends of the three services share.
use alice_tss.Base.{
  ◌≡◌, ◌≢◌, refl, true, false, none, Text, lookup, lookup-erase, text_eq_refl, Done, ok, err, panic,
  Panic, close_of_closed_channel,
}
use alice_tss.Types.{RvSignature}
use alice_tss.Libs.{DkgOutcome, ReshareOutcome}
use alice_tss.Peer.Manager.{get_protocol}
use alice_tss.Store.Handler.{HandlerData}
use alice_tss.Service.Node.{
  Service, Node, remove_stream_handler, close_channel, close_done, written,
}

-- No save of a key generation panics, on any store.
abbrev pub SaveCalm : {S : Type 0} → HandlerData S → Type 0
SaveCalm {S} h =
    (s : S) (k : Text) (d : DkgOutcome) (x : Panic) → (h.save_dkg_result_data s k d).0 ≢ panic x

-- No save of a signature does.
abbrev pub SignCalm : {S : Type 0} → HandlerData S → Type 0
SignCalm {S} h =
    (s : S) (k : Text) (d : RvSignature) (x : Panic) → (h.save_signer_result_data s k d).0 ≢ panic x

-- No update of a share does, on this store and under this hash: an update reads what is stored there.
abbrev pub UpdateCalm : {S : Type 0} → HandlerData S → S → Text → Type 0
UpdateCalm h s k = (d : ReshareOutcome) (x : Panic) → (h.update_dkg_result_data s k d).0 ≢ panic x

-- The node with another store.
abbrev pub with_store : {S : Type 0} → Node S → S → Node S
with_store n s = record n { store = s }

pub close_channel_open :
    {M : Type 0} (p : Service M)
    → p.done_closed ≡ false
    → close_channel p ≡ ok (record p { done_closed = true })
close_channel_open p h = rw h

pub removed :
    {S : Type 0} (hash : Text) (n : Node S)
    → lookup (get_protocol hash) (remove_stream_handler (get_protocol hash) n).handlers ≡ none
removed hash n = rw (
  lookup-erase (get_protocol hash) (get_protocol hash) n.handlers,
  text_eq_refl (get_protocol hash),
)

module _ {M S : Type 0} where
  -- After a write, whatever it returns, the service goes on as it was.
  pub written_goes_on :
      (q : Service M) (n : Node S) (w : Done × S)
      → ((x : Panic) → w.0 ≢ panic x)
      → written q n w ≡ ok (q, with_store n w.1)
  written_goes_on q n (ok _, s) h = refl
  written_goes_on q n (err _, s) h = refl
  written_goes_on q n (panic x, s) h = absurd (h x refl)

  pub close_done_closed :
      (p : Service M) (n : Node S)
      → p.done_closed ≡ true
      → close_done p n ≡ panic close_of_closed_channel
  unfolding close_done
  close_done_closed p n h = rw h

  -- Closing the channel for the first time takes the stream handler away.
  pub close_done_open :
      (p : Service M) (n : Node S)
      → p.done_closed ≡ false
      → close_done p n
        ≡ ok (record p { done_closed = true }, remove_stream_handler (get_protocol p.hash) n)
  unfolding close_done
  close_done_open p n h = rw h
