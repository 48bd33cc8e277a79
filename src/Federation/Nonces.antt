-- ===== src/Federation/Nonces.antt =====
-- The nonces of requests between servers: `remember_nonce` of
-- backend/src/routes/federation/service.rs and its statements in queries.rs. Each statement is a
-- transaction of its own, at its own time of the database, in seconds; the time to live is not
-- negative.
use text.Mathlib.Text.{◌==◌ as str_eq}
use lab_inventory.Common.{
  ℕ, ◌+◌, String, Bool, false, ◌&&◌, ◌||◌, List, [], ◌∷◌, ◌==◌, if◌then◌else◌, Result, ok, err, leb,
}
use lab_inventory.Federation.{
  NonceRow, DatabaseError, db_validation, db_conflict, SecurityError, security_error,
}

-- `delete_expired_nonces`
unfoldable pub delete_expired_nonces : ℕ → List NonceRow → List NonceRow
delete_expired_nonces now [] = []
delete_expired_nonces now (row ∷ rows) =
    let rest = delete_expired_nonces now rows in if leb row.expires_at now then rest else row ∷ rest

-- The primary key of the table.
unfoldable pub nonce_taken : ℕ → String → List NonceRow → Bool
nonce_taken node_id nonce [] = false
nonce_taken node_id nonce (row ∷ rows) =
    (row.remote_node_id == node_id && str_eq row.nonce nonce) || nonce_taken node_id nonce rows

-- `insert_nonce`, with the check of the table that a nonce is not empty.
unfoldable pub insert_nonce :
    ℕ → ℕ → String → ℕ → List NonceRow → Result DatabaseError (List NonceRow)
unfolding nonce_taken
insert_nonce now node_id nonce ttl_seconds rows =
    if str_eq nonce ""
    then err db_validation
    else if nonce_taken node_id nonce rows
    then err db_conflict
    else ok
        (record { remote_node_id = node_id; nonce = nonce; expires_at = now + ttl_seconds } ∷ rows)

-- The rows that are left, and the error of the insert, which the deletion before it outlives.
abbrev pub remembered :
    List NonceRow
    → Result DatabaseError (List NonceRow)
    → List NonceRow × Result SecurityError (Unit {0})
remembered swept (ok rows) = (rows, ok tt)
remembered swept (err e) = (swept, err (security_error e))

-- `remember_nonce`
unfoldable pub remember_nonce :
    ℕ → ℕ → ℕ → String → ℕ → List NonceRow → List NonceRow × Result SecurityError (Unit {0})
unfolding delete_expired_nonces insert_nonce
remember_nonce swept_at stored_at node_id nonce ttl_seconds rows =
    let swept = delete_expired_nonces swept_at rows in
    remembered swept (insert_nonce stored_at node_id nonce ttl_seconds swept)
