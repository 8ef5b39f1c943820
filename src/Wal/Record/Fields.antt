-- ===== src/Wal/Record/Fields.antt =====
-- Where each field of a record of src/wal/record.rs stands in the bytes of `to_bytes`.
use grumpydb.Prelude.{ℕ, ◌+◌, ◌^◌, ◌<◌, zero, suc, List, ◌≡◌, refl, arith, [], ◌∷◌, ◌++◌, drop}
use grumpydb.Prelude.Bytes.{Bytes, to_le_bytes, from_le_bytes, number_at, past_le, number_front}
use grumpydb.Wal.Record.{WalRecord, to_u8}

-- The header of a record: its fixed fields, and what follows them.
abbrev pub header : WalRecord → Bytes → Bytes
header r rest =
    to_le_bytes 4 r.record_len
    ++ (to_le_bytes 8 r.lsn
        ++ (to_le_bytes 8 r.tx_id
            ++ (to_u8 r.op_type ∷ []
                ++ (to_le_bytes 16 r.origin_node_id ++ (to_le_bytes 8 r.hlc ++ rest)))))

module _ (r : WalRecord) (rest : Bytes) where
  pub lsn_at : r.lsn < 2 ^ 64 → number_at 8 4 (header r rest) ≡ r.lsn
  lsn_at h = rw (past_le 4 r.record_len 4 0 _ (omega arith)) (number_front 8 r.lsn _ h)

  pub len_at : r.record_len < 2 ^ 32 → number_at 4 0 (header r rest) ≡ r.record_len
  len_at h = number_front 4 r.record_len _ h

  pub tx_at : r.tx_id < 2 ^ 64 → number_at 8 12 (header r rest) ≡ r.tx_id
  tx_at h =
      rw (past_le 4 r.record_len 12 8 _ (omega arith))
        (rw (past_le 8 r.lsn 8 0 _ (omega arith)) (number_front 8 r.tx_id _ h))

  -- Past the length, the sequence number and the transaction.
  past_ids :
      (k i : ℕ)
      → k ≡ 20 + i
      → drop k (header r rest)
        ≡ drop i (
            to_u8 r.op_type ∷ []
            ++ (to_le_bytes 16 r.origin_node_id ++ (to_le_bytes 8 r.hlc ++ rest)))
  past_ids k i e = rw (past_le 4 r.record_len k (16 + i) _ (omega arith)) (
      rw (past_le 8 r.lsn (16 + i) (8 + i) _ (omega arith))
        (rw (past_le 8 r.tx_id (8 + i) i _ (omega arith))))

  pub op_at : number_at 1 20 (header r rest) ≡ to_u8 r.op_type
  unfolding from_le_bytes
  op_at = rw (past_ids 20 0 (omega arith)) (omega arith)

  pub origin_at : r.origin_node_id < 2 ^ 128 → number_at 16 21 (header r rest) ≡ r.origin_node_id
  origin_at h = rw (past_ids 21 1 (omega arith)) (number_front 16 r.origin_node_id _ h)

  pub hlc_at : r.hlc < 2 ^ 64 → number_at 8 37 (header r rest) ≡ r.hlc
  hlc_at h =
      rw (past_ids 37 17 (omega arith))
        (rw (past_le 16 r.origin_node_id 16 0 _ (omega arith)) (number_front 8 r.hlc _ h))

  -- Past the header.
  pub past_header : (i : ℕ) → drop (45 + i) (header r rest) ≡ drop i rest
  past_header i = rw (past_ids (45 + i) (suc (24 + i)) (omega arith)) (
      rw (past_le 16 r.origin_node_id (24 + i) (8 + i) _ (omega arith))
        (rw (past_le 8 r.hlc (8 + i) i _ (omega arith))))

drop-nil {ℓ} : {A : Type ℓ} (i : ℕ) → drop {A = A} i [] ≡ []
drop-nil zero = refl
drop-nil (suc i) = refl

pub drop-drop {ℓ} : {A : Type ℓ} (i j : ℕ) (xs : List A) → drop (i + j) xs ≡ drop j (drop i xs)
drop-drop zero j xs = let e : 0 + j ≡ j = omega arith in rw e
drop-drop (suc i) j [] = rw (drop-nil (suc i + j), drop-nil j)
drop-drop (suc i) j (x ∷ xs) =
    let e : suc i + j ≡ suc (i + j) = omega arith in rw e (drop-drop i j xs)
