-- ===== src/Exec/Allocator/Caps.antt =====
-- The caps that a reservation respects, and the count that reservations and releases keep.
use pcr_momentum.Base.{
  suc, String, str_eq, eq_iff, ◌≡◌, inl, inr, refl, ◌∙◌, ap, true, false, List, [], ◌∷◌, arith,
  length, if◌then◌else◌, Bool-cases,
}
use pcr_momentum.Base.Int.{ℤ, pos, negsuc, ◌+ℤ◌, ◌≤ℤ◌, ltb_ℤ, +ℤ_parts, eq_of_parts}
use pcr_momentum.Base.Dict.{Dict, get-put}
use pcr_momentum.Float.{Float, ◌>f◌, ◌+f◌}
use pcr_momentum.Exec.Allocator.{
  Allocator, Verdict, reserved, already_open_on_index, max_concurrent_reached, insufficient_capital,
  is_member, srem, count_of, hincrby, amount_of, hincrbyfloat, book, reserve_txn, release,
}

-- No index is named twice.
abbrev pub IsDistinct : List String → Type 0
IsDistinct [] = Unit
IsDistinct (s ∷ ss) = (is_member s ss ≡ false) × IsDistinct ss

is_member-srem :
    (s t : String) (ss : List String) → is_member s ss ≡ false → is_member s (srem t ss) ≡ false
unfolding srem
is_member-srem s t [] h = refl
is_member-srem s t (u ∷ ss) h = ground (arith, is_member-srem s t ss)

srem-IsDistinct : (t : String) (ss : List String) → IsDistinct ss → IsDistinct (srem t ss)
unfolding srem
srem-IsDistinct t [] d = tt
srem-IsDistinct t (s ∷ ss) d = ground (arith, srem-IsDistinct t ss d.1, is_member-srem s t ss d.0)

pub srem_absent : (t : String) (ss : List String) → is_member t ss ≡ false → srem t ss ≡ ss
unfolding srem
srem_absent t [] h = refl
srem_absent t (s ∷ ss) h = ground (arith, srem_absent t ss)

pub length-srem :
    (t : String) (ss : List String)
    → IsDistinct ss
    → is_member t ss ≡ true
    → length ss ≡ suc (length (srem t ss))
unfolding srem
length-srem t [] d h = cc
length-srem t (s ∷ ss) d h = ground (arith, length-srem t ss d.1, srem_absent t ss, eq_iff s t)

count_of-hincrby :
    (j k : String) (n : ℤ) (d : Dict ℤ)
    → count_of j (hincrby k n d) ≡ (if str_eq k j then count_of k d +ℤ n else count_of j d)
unfolding hincrby
count_of-hincrby j k n d = ground (arith, get-put k j (count_of k d +ℤ n) d)

-- The test of the second cap, passed and failed.
ltb_ℤ→≤ : (m n : ℤ) → ltb_ℤ m (n +ℤ pos 1) ≡ true → m ≤ℤ n
ltb_ℤ→≤ m n h = ground (arith, +ℤ_parts n (pos 1))

not_ltb_ℤ→≤ : (m n : ℤ) → ltb_ℤ m n ≡ false → n ≤ℤ m
not_ltb_ℤ→≤ m n h = ground arith

module _ {F : Type 0} ⦃fl : Float F⦄ where
  amount_of-hincrbyfloat :
      (j k : String) (x : F) (d : Dict F)
      → amount_of j (hincrbyfloat k x d)
        ≡ (if str_eq k j then amount_of k d +f x else amount_of j d)
  unfolding hincrbyfloat
  amount_of-hincrbyfloat j k x d = ground (arith, get-put k j (amount_of k d +f x) d)

  -- The open positions are counted: no index twice, and as many as the total says.
  pub record IsCounted (a : Allocator F) : Type 0 where
    pub distinct : IsDistinct a.open_symbols
    pub counted : count_of "total" a.open_count ≡ pos (length a.open_symbols)

  pub book-total :
      (index : String) (x : F) (n : ℤ) (a : Allocator F)
      → str_eq index "total" ≡ false
      → (count_of "total" (book index x n a).open_count ≡ count_of "total" a.open_count +ℤ n)
        × (amount_of "total" (book index x n a).deployed ≡ amount_of "total" a.deployed +f x)
  unfolding book
  book-total index x n a ne =
      let c = hincrby index n a.open_count in
      let d = hincrbyfloat index x a.deployed in
      (
        rw (count_of-hincrby "total" "total" n c)
            (ap (λ m. m +ℤ n) (count_of-hincrby "total" index n a.open_count ∙ rw ne refl)),
        rw (amount_of-hincrbyfloat "total" "total" x d)
            (ap (λ y. y +f x) (amount_of-hincrbyfloat "total" index x a.deployed ∙ rw ne refl)),
      )

  -- What one run of the transaction does, on each of its four branches: a refusal changes nothing and
  -- names the first cap that is hit; a reservation respects all three and books the index.
  abbrev pub Outcome : String → F → F → ℤ → Allocator F → Verdict × Allocator F → Type 0
  Outcome index premium capital limit a (reserved, a') =
      (is_member index a.open_symbols ≡ false)
      × (count_of "total" a'.open_count ≤ℤ limit)
      × ((amount_of "total" a'.deployed >f capital) ≡ false)
      × (a'.open_symbols ≡ index ∷ a.open_symbols)
      × (count_of "total" a'.open_count ≡ count_of "total" a.open_count +ℤ pos 1)
  Outcome index premium capital limit a (already_open_on_index, a') =
      (a' ≡ a) × (is_member index a.open_symbols ≡ true)
  Outcome index premium capital limit a (max_concurrent_reached, a') =
      (a' ≡ a) × (limit ≤ℤ count_of "total" a.open_count)
  Outcome index premium capital limit a (insufficient_capital, a') =
      (a' ≡ a) × (((amount_of "total" a.deployed +f premium) >f capital) ≡ true)
  Outcome index premium capital limit a (_, a') = ⊥

  -- One run of the transaction, for an index that is not named like the totals, either changes nothing
  -- and names a cap that is hit, or respects all three caps, opens the index and counts it.
  pub reserve_txn-Outcome :
      (index : String) (premium capital : F) (limit : ℤ) (a : Allocator F)
      → str_eq index "total" ≡ false
      → Outcome index premium capital limit a (reserve_txn index premium capital limit a)
  unfolding reserve_txn
  reserve_txn-Outcome index premium capital limit a ne =
      let t = book-total index premium (pos 1) a ne in
      elim (Bool-cases (is_member index a.open_symbols)) [
        | inl open_already ↦ rw open_already (refl, open_already)
        | inr free ↦ elim (Bool-cases (ltb_ℤ limit (count_of "total" a.open_count +ℤ pos 1))) [
          | inl full ↦ rw (free, full) (refl, ltb_ℤ→≤ limit (count_of "total" a.open_count) full)
          | inr room ↦ elim (Bool-cases ((amount_of "total" a.deployed +f premium) >f capital)) [
            | inl dear ↦ rw (free, room, dear) (refl, dear)
            | inr cheap ↦
                rw (free, room, cheap)
                  (
                    free,
                    rw t.0 (not_ltb_ℤ→≤ limit (count_of "total" a.open_count +ℤ pos 1) room),
                    rw t.1 cheap,
                    refl,
                    t.0,
                  )
          ]
        ]
      ]

  booked-IsCounted :
      (index : String) (premium : F) (a : Allocator F)
      → str_eq index "total" ≡ false
      → is_member index a.open_symbols ≡ false
      → IsCounted a
      → IsCounted (record (book index premium (pos 1) a) { open_symbols = index ∷ a.open_symbols })
  booked-IsCounted index premium a ne free c = record {
    distinct = (free, c.distinct);
    counted =
        (book-total index premium (pos 1) a ne).0
        ∙ (rw c.counted
            (eq_of_parts _ _ (omega (arith, +ℤ_parts (pos (length a.open_symbols)) (pos 1)))));
  }

  pub reserve_txn-IsCounted :
      (index : String) (premium capital : F) (limit : ℤ) (a : Allocator F)
      → str_eq index "total" ≡ false
      → IsCounted a
      → IsCounted (reserve_txn index premium capital limit a).1
  unfolding reserve_txn
  reserve_txn-IsCounted index premium capital limit a ne c =
      elim (Bool-cases (is_member index a.open_symbols)) [
        | inl open_already ↦ rw open_already c
        | inr free ↦ ground (arith, booked-IsCounted index premium a ne free c)
      ]

  -- Releasing an index that is open takes it out of the set and of the count.
  pub release-IsCounted :
      (index : String) (premium : F) (a : Allocator F)
      → str_eq index "total" ≡ false
      → is_member index a.open_symbols ≡ true
      → IsCounted a
      → IsCounted (release true index premium a).1
  unfolding release
  release-IsCounted index premium a ne held c = record {
    distinct = srem-IsDistinct index a.open_symbols c.distinct;
    counted =
        (book-total index (fl.neg premium) (negsuc 0) a ne).0
        ∙ (rw c.counted (
            eq_of_parts _ _ (
              omega (
                arith,
                +ℤ_parts (pos (length a.open_symbols)) (negsuc 0),
                length-srem index a.open_symbols c.distinct held,
              ))));
  }
