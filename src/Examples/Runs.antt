-- ===== src/Examples/Runs.antt =====
-- Runs of the model at fixed inputs.
use monitostr.Prelude.{starts_with, text_eq, ◌≡◌, refl, true, false, [], ◌∷◌, none, some, codes}
use monitostr.StringUtils.{trim_copy}
use monitostr.Net.RelayTarget.{parse_relay_url, parse_rest, split_port, split_relay_host_and_target}
use monitostr.Nip19.Hex.{hex_to_bytes, read_pairs}
use monitostr.Nip19.Convert.{convert_bits}
use monitostr.Nip19.Bech32.{encode_bech32_32_bytes, polymod, hrp_expand}
use monitostr.Nip19.Keys.{encode_npub_from_hex}
use monitostr.Ui.Command.{unknown, verb_of}

one_byte : convert_bits 8 5 true (255 ∷ []) ≡ some (31 ∷ 28 ∷ [])
unfolding convert_bits
one_byte = refl

back : convert_bits 5 8 false (31 ∷ 28 ∷ []) ≡ some (255 ∷ [])
unfolding convert_bits
back = refl

padding_is_zero : convert_bits 5 8 false (31 ∷ 29 ∷ []) ≡ none
unfolding convert_bits
padding_is_zero = refl

two_bytes : hex_to_bytes (codes "00fF") ≡ 0 ∷ 255 ∷ []
unfolding hex_to_bytes read_pairs
two_bytes = refl

-- The key of the NIP-19 document.
known_key :
    encode_npub_from_hex (codes "7e7e9c42a91bfef19fa929e5fda1b72e0ebc1a4c1141673e2794234d86addf4e")
    ≡ record {
      ok = true;
      npub = codes "npub10elfcs4fr0l0r8af98jlmgdh9c8tcxjvz9qkw038js35mp4dma8qzvjptg";
      error = [];
    }
unfolding encode_npub_from_hex hex_to_bytes monitostr.Nip19.Hex.read_pairs encode_bech32_32_bytes
    monitostr.Nip19.Convert.convert_bits monitostr.Nip19.Bech32.polymod
    monitostr.Nip19.Bech32.hrp_expand
known_key = refl

query_only :
    parse_relay_url (codes "wss://filter.nostr.wine?global=all")
    ≡ some (record {
      secure = true;
      host = codes "filter.nostr.wine";
      port = codes "443";
      target = codes "/?global=all";
    })
unfolding parse_relay_url parse_rest split_port starts_with split_relay_host_and_target
query_only = refl

trim_example : trim_copy (codes "  :set follow \t") ≡ codes ":set follow"
unfolding trim_copy
trim_example = refl

nips_wrap_is_unknown : verb_of (codes "set nipswrap") ≡ unknown
unfolding verb_of text_eq starts_with
nips_wrap_is_unknown = refl
