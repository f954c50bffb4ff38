-- ===== src/Tests/Nodes.antt =====
-- Nodes over the concrete store, without an outcome and with one.
use alice_tss.Base.{◌≡◌, refl, [], ◌∷◌, codes, ok}
use alice_tss.Peer.Manager.{get_protocol}
use alice_tss.Utils.Encrypto.{encrypt, new_cipher, iv_of}
use alice_tss.Codec.Hex.{hex_encode}
use alice_tss.Store.Fsm.{set, put, get}
use alice_tss.Store.Badger.{save_dkg_result_data}
use alice_tss.Service.Node.{Node}
use alice_tss.Tests.Toys.{
  toy_libs, toy_laws, toy_codec, toy_codec_laws, toy_badger, toy_badger_laws, toy_key, toy_outcome,
}
use alice_tss.Store.Badger.{update_dkg_result_data, get_dkg_result_data, dkg_record}
use alice_tss.Wire.{read_dkg, dkg_json}
use alice_tss.Store.Badger.Refine.{write}
use alice_tss.Store.Badger.Promise.{save as save_write}
use alice_tss.Base.{traverse_map}
use alice_tss.Tests.Lives.{reshare_outcome}

abbrev pub badger_node : Node toy_badger.Db
badger_node = record { handlers = (get_protocol (codes "h"), codes "h") ∷ []; store = [] }

-- A node that holds the outcome of a key generation.
abbrev pub holding_node : Node toy_badger.Db
holding_node = record {
  handlers = (get_protocol (codes "h"), codes "h") ∷ [];
  store =
      (write toy_libs toy_laws toy_codec toy_codec_laws toy_badger toy_badger_laws toy_key []
        (save_write (codes "h") toy_outcome)).1;
}

pub share_updated :
    (update_dkg_result_data toy_libs toy_codec toy_badger toy_key holding_node.store
      (codes "h")
      reshare_outcome).0
    ≡ ok tt
unfolding write save_dkg_result_data update_dkg_result_data get_dkg_result_data dkg_record encrypt
    new_cipher iv_of set put get hex_encode read_dkg dkg_json traverse_map
share_updated = refl
