-- ===== src/Base64/Tests.antt =====
-- A text of two lines.
use opticon.Prelude.{ℕ, ◌+◌, ◌≤◌, ◌≡◌, refl, some, List, length, arith}
use opticon.Prelude.Text.{codes}
use opticon.Base64.{encode, encode_from, decode, encoded_size}
use opticon.Base64.RoundTrip.{decode-encode}
use opticon.Base64.Bounds.{encode-fits}

abbrev text : List ℕ
text = codes "A packet is encrypted, then sent to the collector of the tenant."

encode-short : encode (codes "hello") ≡ codes "aGVsbG8="
unfolding encode encode_from
encode-short = refl

decode-encode_example : decode 7 (encode text) ≡ some text
decode-encode_example = decode-encode 7 text (omega arith)

encode-fits_example : length (encode text) + 1 ≤ encoded_size (length text)
encode-fits_example = encode-fits text
