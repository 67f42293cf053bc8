-- ===== src/Jsonrpc/Examples.antt =====
-- Tests of the decoders.
use go_wmp.Jsonrpc.{Token, Message}
use go_wmp.Jsonrpc.Batch.{
  decode_batch-eq-nil_iff, MeetsNil, decode_batch_sound, trim_space, starts_array, Acceptable,
  decode_batch,
}
use go_wmp.Jsonrpc.Decode.{
  decode_message-eq-ok_iff, IsAcceptable, check_depth, check_message_depth, max_depth,
  nil_dereference, ok, decode_message, max_size,
}
use go_wmp.Jsonrpc.Depth.{depth}
use go_wmp.Prelude.{◌≡◌, refl, ◌≤◌, String, Option, none, some, List, [], ◌∷◌, true}
use go_wmp.Fixtures.{codec, ping, pong}

ping_decodes : decode_message codec none "ping" ≡ ok ping
unfolding decode_message check_message_depth check_depth max_size max_depth depth
    go_wmp.Jsonrpc.Decode.require_eof
ping_decodes = refl

decode_message-eq-ok_iff_example :
    (Prim.Native.String.len "ping" ≤ max_size none)
    × ((rest : String) × (codec.read_message "ping" ≡ some (ping, rest))
        × (codec.next_token rest ≡ Token.eof))
    × IsAcceptable codec (max_depth none) ping
decode_message-eq-ok_iff_example = (decode_message-eq-ok_iff codec none "ping" ping).0 ping_decodes

null_in_batch : decode_batch codec none "[ping,null]" ≡ nil_dereference
unfolding decode_batch max_size starts_array trim_space go_wmp.Jsonrpc.Batch.check_batch
    check_message_depth max_depth depth
null_in_batch = refl

decode_batch-eq-nil_iff_example :
    (Prim.Native.String.len "[ping,null]" ≤ max_size none)
    × (starts_array (trim_space "[ping,null]") ≡ true)
    × ((msgs : List (Option Message)) × (rest : String) × (codec.read_batch
            (trim_space "[ping,null]")
          ≡ some (msgs, rest))
        × MeetsNil codec (max_depth none) msgs)
decode_batch-eq-nil_iff_example = (decode_batch-eq-nil_iff codec none "[ping,null]").0 null_in_batch

batch_decodes : decode_batch codec none "[ping,pong]" ≡ ok (some (ping ∷ pong ∷ []))
unfolding decode_batch max_size starts_array trim_space go_wmp.Jsonrpc.Batch.check_batch
    check_message_depth max_depth depth go_wmp.Jsonrpc.Decode.require_eof
batch_decodes = refl
