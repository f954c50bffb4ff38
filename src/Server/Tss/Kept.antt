-- ===== src/Server/Tss/Kept.antt =====
-- A signer leaves the keys in the badger store where they are: service/signer.go over
-- store/badger_handler.go.
use alice_tss.Base.{◌≡◌, false, Option, none, some, List, Text, text_eq}
use alice_tss.Libs.{Libs, LibLaws, PrivateKey, DkgOutcome, SignOutcome}
use alice_tss.Utils.Keys.{to_hex_hash}
use alice_tss.Peer.Manager.{get_protocol}
use alice_tss.Store.Backend.{Codec, CodecLaws, Badger, BadgerLaws}
use alice_tss.Store.Badger.Refine.{Holds}
use alice_tss.Store.Badger.Steady.{Steady}
use alice_tss.Store.Badger.Signatures.{save_signer_result_data-Holds}
use alice_tss.Store.Handler.{badger_handler}
use alice_tss.Service.Node.{
  MainState, state_init, state_done, state_failed, next, Node, remove_stream_handler,
}
use alice_tss.Service.Signer.{signature_of}
use alice_tss.Service.Lifecycle.{Event, IsEnd, ends, node_after_lem}
use alice_tss.Service.Lifecycle.Signers.{stored, signer_leaves}
use alice_tss.Server.Tss.{Alice, SignRequest}
use alice_tss.Server.Tss.Laws.{final_node, listening}

module _ (l : Libs) (laws : LibLaws l) (c : Codec) (codec : CodecLaws c) (b : Badger c.Doc)
    (badger : BadgerLaws b) (key : PrivateKey) (steady : Steady c b) (a : Alice) where
  module _ (hash : Text) (d : DkgOutcome) where
    stored-Holds :
        (k : Text) (o : Option SignOutcome) (n : Node b.Db)
        → text_eq k hash ≡ false
        → Holds l laws c codec b badger key n.store hash d
        → Holds l laws c codec b badger key
            (stored l a.signing (badger_handler l c b key) k o n).store
            hash
            d
    stored-Holds k none n other h = h
    stored-Holds k (some g) n other h =
        save_signer_result_data-Holds l laws c codec b badger key steady n.store hash k
          (signature_of k g) d other h

    end-Holds :
        (k : Text) (n : Node b.Db) (s : MainState) (x : a.signing.M)
        → text_eq k hash ≡ false
        → Holds l laws c codec b badger key n.store hash d
        → IsEnd s
        → Holds l laws c codec b badger key
            (signer_leaves l a.signing (badger_handler l c b key) s x k n).store
            hash
            d
    end-Holds k n state_init x other h i = absurd i
    end-Holds k n state_failed x other h i = h
    end-Holds k n state_done x other h i =
        stored-Holds k (a.signing.get_result x) (remove_stream_handler (get_protocol k) n) other h

    -- A signer under another hash leaves the outcome where it is, however it ends.
    pub final_node-Holds :
        (request : SignRequest) (m : a.signing.M) (events : List Event) (n : Node b.Db)
        → text_eq (to_hex_hash l request.message) hash ≡ false
        → Holds l laws c codec b badger key n.store hash d
        → ends events ≡ 1
        → Holds l laws c codec b badger key
            (final_node l a (badger_handler l c b key) request m events n).store
            hash
            d
    final_node-Holds request m events n other h one =
        node_after_lem (signer_leaves l a.signing (badger_handler l c b key)) (next a.signing)
          (λ (n' : Node b.Db). Holds l laws c codec b badger key n'.store hash d)
          (to_hex_hash l request.message) (listening l a (badger_handler l c b key) request n)
          (λ s x i.
            end-Holds (to_hex_hash l request.message)
              (listening l a (badger_handler l c b key) request n) s x other h i)
          events (a.signing.start m) one
