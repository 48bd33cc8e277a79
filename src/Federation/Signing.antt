-- ===== src/Federation/Signing.antt =====
-- Signatures of requests between servers: backend/src/routes/federation/security.rs.
use Prim.Native.String.{◌++◌ as str_append}
use lab_inventory.Common.{
  ℕ, ◌/◌, ◌%◌, String, Bool, ◌&&◌, Option, none, some, List, [], ◌∷◌, ◌==◌, bit_or, bit_xor, Result,
  ok, err, ◌>>=◌, guard, ok_or, length, get_or,
}
use lab_inventory.Federation.{
  Crypto, Formats, Headers, HeaderValue, visible, opaque, SecurityError, unauthorized,
  RemoteNodeRow, OutboundIdentity,
}

abbrev hex_digit : ℕ → String
hex_digit n =
    get_or
      ("0" ∷ "1" ∷ "2" ∷ "3" ∷ "4" ∷ "5" ∷ "6" ∷ "7" ∷ "8" ∷ "9" ∷ "a" ∷ "b" ∷ "c" ∷ "d" ∷ "e" ∷ "f"
        ∷ [])
      n ""

-- `{byte:02x}` of every byte.
abbrev hex : List ℕ → String
hex [] = ""
hex (byte ∷ bytes) =
    str_append (hex_digit (byte / 16)) (str_append (hex_digit (byte % 16)) (hex bytes))

-- `sha256_hex`
abbrev pub sha256_hex : Crypto → List ℕ → String
sha256_hex crypto bytes = hex (crypto.digest bytes)

-- The fields after the version, each on a line.
abbrev on_lines : List String → String
on_lines [] = ""
on_lines (field ∷ fields) = str_append "\n" (str_append field (on_lines fields))

module _ (crypto : Crypto) (format : Formats) where
  -- `sign_canonical`
  unfoldable pub sign_canonical :
      String → String → String → String → ℕ → ℕ → ℕ → String → String → String → ℕ → String
  sign_canonical shared_secret method path_and_query body_hash node_id laboratory_id user_id
        user_type timestamp nonce key_version =
      crypto.encode (
        crypto.mac shared_secret (
          str_append "v1" (
            on_lines (
              format.to_uppercase method
              ∷ path_and_query
              ∷ body_hash
              ∷ format.show_uuid node_id
              ∷ format.show_uuid laboratory_id
              ∷ format.show_uuid user_id
              ∷ user_type
              ∷ timestamp
              ∷ nonce
              ∷ format.show_i32 key_version
              ∷ []))))

  -- The headers of `signed_headers`, at the time and with the nonce that it takes.
  unfoldable pub signed_headers :
      ℕ
      → String
      → String
      → String
      → List ℕ
      → RemoteNodeRow
      → OutboundIdentity
      → List (String × String)
  unfolding sign_canonical
  signed_headers now nonce method path_and_query body remote_node identity =
      let timestamp = format.show_i64 now in
      let signature =
        sign_canonical remote_node.shared_secret method path_and_query (sha256_hex crypto body)
          identity.local_node_id identity.local_laboratory_id identity.user_id identity.user_type
          timestamp nonce remote_node.key_version in
      ("x-federation-node-id", format.show_uuid identity.local_node_id)
      ∷ ("x-federation-key-version", format.show_i32 remote_node.key_version)
      ∷ ("x-federation-timestamp", timestamp)
      ∷ ("x-federation-nonce", nonce)
      ∷ ("x-federation-signature", signature)
      ∷ ("x-federation-remote-laboratory-id", format.show_uuid identity.local_laboratory_id)
      ∷ ("x-federation-remote-user-id", format.show_uuid identity.user_id)
      ∷ ("x-federation-remote-username", identity.username)
      ∷ ("x-federation-remote-user-type", identity.user_type)
      ∷ []

-- The fold over the pairs of bytes.
unfoldable pub fold_difference : ℕ → List ℕ → List ℕ → ℕ
fold_difference acc [] right = acc
fold_difference acc (l ∷ left) [] = acc
fold_difference acc (l ∷ left) (r ∷ right) = fold_difference (bit_or acc (bit_xor l r)) left right

abbrev pub bytes_match : List ℕ → List ℕ → Bool
bytes_match provided expected =
    length provided == length expected && fold_difference 0 provided expected == 0

-- `verify_signature`
unfoldable pub verify_signature : Crypto → String → String → Result SecurityError (Unit {0})
unfolding fold_difference
verify_signature crypto provided expected = do
  provided_bytes ← ok_or (crypto.decode provided) unauthorized
  expected_bytes ← ok_or (crypto.decode expected) unauthorized
  guard (bytes_match provided_bytes expected_bytes) unauthorized

abbrev header_text : Option HeaderValue → Result SecurityError String
header_text none = err unauthorized
header_text (some opaque) = err unauthorized
header_text (some (visible value)) = ok value

-- `required_header`
abbrev pub required_header : Headers → String → Result SecurityError String
required_header headers name = header_text (headers name)

-- `parse_uuid_header`, `parse_i32_header` and `parse_i64_header`, by the parser.
abbrev pub parse_header : (String → Option ℕ) → Headers → String → Result SecurityError ℕ
parse_header parse headers name = do
  value ← required_header headers name
  ok_or (parse value) unauthorized
