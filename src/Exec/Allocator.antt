-- ===== src/Exec/Allocator.antt =====
-- backend/engines/order_exec/allocator.py: who may open a position, and with how much capital. The
-- hashes and the set of Redis are one record.
pub mod Caps
pub mod Runs
use pcr_momentum.Base.{
  ℕ, zero, suc, String, str_eq, Bool, true, false, Option, none, some, List, [], ◌∷◌, any,
  if◌then◌else◌,
}
use pcr_momentum.Base.Int.{ℤ, pos, negsuc, ◌+ℤ◌, ltb_ℤ}
use pcr_momentum.Base.Dict.{Dict, get, put}
use pcr_momentum.Float.{Float, nought, ◌>f◌, ◌+f◌}

-- orders:allocator:deployed, :open_count and :open_symbols
pub record Allocator (F : Type 0) : Type 0 where
  pub deployed : Dict F
  pub open_count : Dict ℤ
  pub open_symbols : List String

pub data Verdict : Type 0 where
  reserved already_open_on_index max_concurrent_reached insufficient_capital allocator_error
        retry_exhausted :
      Verdict

abbrev pub is_member : String → List String → Bool
is_member t ts = any (λ s. str_eq s t) ts

-- SADD and SREM
abbrev pub sadd : String → List String → List String
sadd t ts = if is_member t ts then ts else t ∷ ts

unfoldable pub srem : String → List String → List String
srem t [] = []
srem t (s ∷ ss) = let rest = srem t ss in if str_eq s t then rest else s ∷ rest

abbrev or_zero : Option ℤ → ℤ
or_zero none = pos 0
or_zero (some n) = n

-- `int(pipe.hget(open_key, field) or 0)`, and HINCRBY
abbrev pub count_of : String → Dict ℤ → ℤ
count_of k d = or_zero (get k d)

unfoldable pub hincrby : String → ℤ → Dict ℤ → Dict ℤ
hincrby k n d = put k (count_of k d +ℤ n) d

module _ {F : Type 0} ⦃fl : Float F⦄ where
  abbrev or_nought : Option F → F
  or_nought none = nought
  or_nought (some x) = x

  abbrev pub amount_of : String → Dict F → F
  amount_of k d = or_nought (get k d)

  unfoldable pub hincrbyfloat : String → F → Dict F → Dict F
  hincrbyfloat k x d = put k (amount_of k d +f x) d

  -- The five commands between MULTI and EXEC.
  unfoldable pub book : String → F → ℤ → Allocator F → Allocator F
  book index premium n a = record {
    deployed = hincrbyfloat "total" premium (hincrbyfloat index premium a.deployed);
    open_count = hincrby "total" n (hincrby index n a.open_count);
    open_symbols = a.open_symbols;
  }

  -- One run of `_txn`, which Redis executes as a whole or not at all.
  unfoldable pub reserve_txn : String → F → F → ℤ → Allocator F → Verdict × Allocator F
  reserve_txn index premium capital max_concurrent a =
      if is_member index a.open_symbols
      then (already_open_on_index, a)
      else if ltb_ℤ max_concurrent (count_of "total" a.open_count +ℤ pos 1)
      then (max_concurrent_reached, a)
      else if (amount_of "total" a.deployed +f premium) >f capital
      then (insufficient_capital, a)
      else (
        reserved,
        record (book index premium (pos 1) a) { open_symbols = sadd index a.open_symbols },
      )

-- How an attempt at the transaction ends: it commits; another client has touched a watched key, and
-- left this allocator; the connection fails before the commit; or after it, so that the reply is lost.
pub data Attempt (F : Type 0) : Type 0 where
  commits : Attempt F
  watch_error : Allocator F → Attempt F
  fails : Attempt F
  reply_lost : Attempt F

module _ {F : Type 0} ⦃fl : Float F⦄ where
  -- `_TXN_MAX_RETRIES` is 5: the attempts are numbered by the outcomes that meet them.
  unfoldable pub attempt :
      ℕ → (ℕ → Attempt F) → String → F → F → ℤ → Allocator F → Verdict × Allocator F
  attempt zero outcome index premium capital max_concurrent a = (retry_exhausted, a)
  attempt (suc left) outcome index premium capital max_concurrent a = elim (outcome left) [
    | commits ↦ reserve_txn index premium capital max_concurrent a
    | watch_error others ↦ attempt left outcome index premium capital max_concurrent others
    | fails ↦ (allocator_error, a)
    | reply_lost ↦ (allocator_error, (reserve_txn index premium capital max_concurrent a).1)
  ]

  unfoldable pub check_and_reserve :
      (ℕ → Attempt F) → String → F → F → ℤ → Allocator F → Verdict × Allocator F
  unfolding attempt
  check_and_reserve outcome index premium capital max_concurrent a =
      attempt 5 outcome index premium capital max_concurrent a

  -- The pipeline of `release` runs unless the connection fails.
  unfoldable pub release : Bool → String → F → Allocator F → Verdict × Allocator F
  release false index premium a = (allocator_error, a)
  release true index premium a = (
    reserved,
    record (book index (fl.neg premium) (negsuc 0) a) { open_symbols = srem index a.open_symbols },
  )
