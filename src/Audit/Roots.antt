-- ===== src/Audit/Roots.antt =====
-- The incremental roots (app/services/audit_chain_roots.py) and the commitments of archived chunks
-- (app/services/audit_chain_commitment.py) over SHA-256, a parameter.
use Prim.Native.String.{◌++◌ as append}
use apex_chainx_backend.Common.{◌≡◌, refl, sym, ap, String, Bool, List, [], ◌∷◌, ◌++◌, str_eq}

module _ (sha256 : String → String) where
  unfoldable pub fold_root : String → String → String
  fold_root previous_root entry_hash = sha256 (append previous_root (append ":" entry_hash))

  unfoldable pub compute_incremental_root : List String → String → String
  compute_incremental_root [] root = root
  compute_incremental_root (entry_hash ∷ more) root =
      compute_incremental_root more (fold_root root entry_hash)

  unfoldable pub verify_tail : String → List String → String → Bool × String
  verify_tail last_verified_root tail claimed_root =
      let computed = compute_incremental_root tail last_verified_root in
      (str_eq computed claimed_root, computed)

  -- What the hasher has read after its updates.
  updated : String → List String → String
  updated read [] = read
  updated read (entry_hash ∷ more) = updated (append read entry_hash) more

  unfoldable pub compute_chunk_root : List String → String
  unfolding updated
  compute_chunk_root entry_hashes = sha256 (updated "" entry_hashes)

  unfoldable pub verify_chunk_root : List String → String → Bool
  verify_chunk_root entry_hashes expected_root =
      str_eq (compute_chunk_root entry_hashes) expected_root

  pub compute_incremental_root-append :
      (xs ys : List String) (root : String)
      → compute_incremental_root (xs ++ ys) root
        ≡ compute_incremental_root ys (compute_incremental_root xs root)
  unfolding compute_incremental_root
  compute_incremental_root-append [] ys root = refl
  compute_incremental_root-append (x ∷ xs) ys root =
      compute_incremental_root-append xs ys (fold_root root x)

  -- Verifying a tail from the root of the entries before it decides the same claim, and computes
  -- the same root, as folding all entries from the start.
  pub verify_tail-append :
      (xs ys : List String) (genesis claimed : String)
      → verify_tail (compute_incremental_root xs genesis) ys claimed
        ≡ verify_tail genesis (xs ++ ys) claimed
  unfolding verify_tail
  verify_tail-append xs ys genesis claimed =
      ap (λ root. (str_eq root claimed, root)) (sym (compute_incremental_root-append xs ys genesis))
