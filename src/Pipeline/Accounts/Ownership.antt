-- ===== src/Pipeline/Accounts/Ownership.antt =====
-- The two queries of what an account owns agree.
use offline_reels.Base.{
  ℕ, ◌≡◌, Bool, false, ◌&&◌, ◌||◌, String, List, [], ◌∷◌, ◌==◌, string_eq, nat_eq, count_if, arith,
  Bool-cases, inl, inr, ◌∙◌, sym,
}
use offline_reels.Pipeline.Schema.{Db, Reel, Item, Run}
use offline_reels.Pipeline.Accounts.{
  any_row, account_has_durable_reel, account_durable_count, is_counted, is_selected,
}

-- No two Reels have the same shortcode, which is a unique column.
abbrev pub HasOwnShortcodes : List Reel → Type 0
HasOwnShortcodes [] = Unit
HasOwnShortcodes (reel ∷ reels) =
    (any_row (λ r. r.shortcode == reel.shortcode) reels ≡ false) × HasOwnShortcodes reels

module _ {A : Type 0} where
  any_row-and :
      (b : Bool) (p q : A → Bool) (xs : List A)
      → ((x : A) → p x ≡ (b && q x))
      → any_row p xs ≡ (b && any_row q xs)
  unfolding any_row
  any_row-and b p q [] h = ground arith
  any_row-and b p q (x ∷ xs) h = ground (arith, h x, any_row-and b p q xs h)

  any_row-apart :
      (p q : A → Bool) (xs : List A) → any_row p xs ≡ false → any_row (λ x. p x && q x) xs ≡ false
  unfolding any_row
  any_row-apart p q [] h = ground arith
  any_row-apart p q (x ∷ xs) h = ground (arith, any_row-apart p q xs)

  any_row-ext : (p q : A → Bool) (xs : List A) → ((x : A) → p x ≡ q x) → any_row p xs ≡ any_row q xs
  unfolding any_row
  any_row-ext p q [] h = ground arith
  any_row-ext p q (x ∷ xs) h = ground (arith, h x, any_row-ext p q xs h)

  count_if-ext :
      (p q : A → Bool) (xs : List A) → ((x : A) → p x ≡ q x) → count_if p xs ≡ count_if q xs
  unfolding count_if
  count_if-ext p q [] h = ground arith
  count_if-ext p q (x ∷ xs) h = ground (arith, h x, count_if-ext p q xs h)

  count_if-apart :
      (r q : A → Bool) (b : Bool) (xs : List A)
      → any_row r xs ≡ false
      → count_if (λ x. r x && b || q x) xs ≡ count_if q xs
  unfolding any_row count_if
  count_if-apart r q b [] h = ground arith
  count_if-apart r q b (x ∷ xs) h = ground (arith, count_if-apart r q b xs)

-- In a row a query by shortcode asks for the shortcode too.
is_selected-counted :
    (account_id : ℕ) (shortcode : String) (reel : Reel) (item : Item) (run : Run)
    → is_selected account_id shortcode reel item run
      ≡ ((reel.shortcode == shortcode) && is_counted account_id reel item run)
is_selected-counted account_id shortcode reel item run = ground arith

same_shortcode-sym : (a b : String) → (a == b) ≡ (b == a)
same_shortcode-sym a b = elim (Bool-cases (a == b)) [
  | inl e ↦ ground (arith, string_eq.equal_iff a b, string_eq.equal_iff b b)
  | inr e ↦ ground (arith, string_eq.equal_iff a a, string_eq.equal_iff b a)
]

count_if-by_shortcode :
    (q : Reel → Bool) (reels : List Reel)
    → HasOwnShortcodes reels
    → count_if q reels
      ≡ count_if (λ z. any_row (λ y. (y.shortcode == z.shortcode) && q y) reels) reels
unfolding any_row count_if
count_if-by_shortcode q [] h = ground arith
count_if-by_shortcode q (x ∷ xs) h = ground (
  arith,
  string_eq.equal_iff x.shortcode x.shortcode,
  any_row-apart (λ y. y.shortcode == x.shortcode) q xs h.0,
  count_if-apart (λ z. x.shortcode == z.shortcode)
      (λ z. any_row (λ y. (y.shortcode == z.shortcode) && q y) xs) (q x) xs apart,
  count_if-by_shortcode q xs h.1,
)
  where
    apart : any_row (λ z. x.shortcode == z.shortcode) xs ≡ false
    apart =
        any_row-ext (λ z. x.shortcode == z.shortcode) (λ z. z.shortcode == x.shortcode) xs
          (λ z. same_shortcode-sym x.shortcode z.shortcode)
        ∙ h.0

account_has_durable_reel-rows :
    (account_id : ℕ) (shortcode : String) (db : Db)
    → account_has_durable_reel account_id shortcode db
      ≡ any_row
          (λ reel.
            (reel.shortcode == shortcode)
            && any_row
                (λ item. any_row (λ run. is_counted account_id reel item run) db.runs)
                db.items)
          db.reels
unfolding account_has_durable_reel
account_has_durable_reel-rows account_id shortcode db = any_row-ext _ _ db.reels λ reel.
    any_row-and (reel.shortcode == shortcode) _ _ db.items λ item.
      any_row-and (reel.shortcode == shortcode) _ _ db.runs
        λ run. is_selected-counted account_id shortcode reel item run

-- Where no two Reels have the same shortcode, the durable count of an account is the number of
-- Reels whose shortcode passes the account's ownership test.
pub account_durable_count-has_durable_reel :
    (account_id : ℕ) (db : Db)
    → HasOwnShortcodes db.reels
    → account_durable_count account_id db
      ≡ count_if (λ reel. account_has_durable_reel account_id reel.shortcode db) db.reels
unfolding account_durable_count
account_durable_count-has_durable_reel account_id db h =
    count_if-by_shortcode
      (λ reel.
        any_row (λ item. any_row (λ run. is_counted account_id reel item run) db.runs) db.items)
      db.reels h
    ∙ count_if-ext _ _ db.reels
        (λ reel. sym (account_has_durable_reel-rows account_id reel.shortcode db))
