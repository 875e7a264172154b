-- ===== src/Work/Order.antt =====
-- In what order a worker publishes, commits and deletes: the log, and rules for it.
pub mod Publication
pub mod Runs
use offline_reels.Base.{
  ℕ, ◌≡◌, refl, Bool, true, false, ◌&&◌, ◌||◌, not, Option, none, some, String, List, [], ◌∷◌, ◌==◌,
  string_eq, if◌then◌else◌, arith, nat_eq, followed_by, ◌++◌, subst, sym, ap,
}
use offline_reels.Pipeline.Normalizer.{ClaimedNormalizationJob}
use offline_reels.Action.{Outcome, pure, raise, try_except, finally, ◌>>=◌}
use offline_reels.Action.Keeps.{
  Keeps, keeps_rules, Keeps-try_except, Keeps-test, Keeps-raise, Keeps-bind,
}
use offline_reels.Action.Lands.{
  Lands, Landed, Lands-kept, Lands-bind, Lands-pure, Lands-raise, Lands-test, Lands-try_except,
  Lands-finally, Lands-mono,
}
use offline_reels.Work.Ports.{
  Ports, Port, Job, WorkError, Deed, Normalized, Working, call, note, unless_exception,
  unless_not_found, is_exception, is_not_found,
}
use offline_reels.Domain.Reasons.{ReasonCode}

abbrev pub is_committed : Deed → Bool
is_committed (Deed.committed key path) = true
is_committed _ = false

abbrev pub is_hash : String → String → ℕ → Deed → Bool
is_hash path sha size (Deed.hashed p s n) = p == path && s == sha && n == size
is_hash path sha size _ = false

unfoldable pub any_deed : (Deed → Bool) → List Deed → Bool
any_deed p [] = false
any_deed p (d ∷ log) = let rest = any_deed p log in p d || rest

-- The last thing done was to download the object `key` to a file, to hash that to a digest and a
-- size that the file `path` had been hashed to before, to probe it and find it canonical, and to
-- decode it.
unfoldable pub is_verification : String → String → List Deed → Bool
unfolding any_deed
is_verification key path
      (Deed.decoded a
        ∷ Deed.probed b canonical
        ∷ Deed.hashed c sha size
        ∷ Deed.downloaded k d
        ∷ log) =
    k == key && a == d && b == d && c == d && canonical && any_deed (is_hash path sha size) log
is_verification key path _ = false

unfoldable pub was_verified : String → String → List Deed → Bool
unfolding is_verification
was_verified key path [] = false
was_verified key path (d ∷ log) =
    let rest = was_verified key path log in is_verification key path (d ∷ log) || rest

-- A source is deleted only after a commit, a final object only if there is none, and only an object
-- that has been verified against its output is committed: by a log that has the newest deed first.
unfoldable pub in_order : List Deed → Bool
unfolding any_deed was_verified
in_order [] = true
in_order (Deed.source_removed key ∷ log) =
    let rest = in_order log in any_deed is_committed log && rest
in_order (Deed.final_removed key ∷ log) =
    let rest = in_order log in not (any_deed is_committed log) && rest
in_order (Deed.committed key path ∷ log) =
    let rest = in_order log in was_verified key path log && rest
in_order (Deed.downloaded key path ∷ log) = in_order log
in_order (Deed.hashed path sha size ∷ log) = in_order log
in_order (Deed.probed path canonical ∷ log) = in_order log
in_order (Deed.decoded path ∷ log) = in_order log

pub record Logged {W : Type 0} (P : List Deed → Type 0) (s : Working W) : Type 0 where
  pub holds : P s.log

module _ {W : Type 0} {P : List Deed → Type 0} where
  pub Keeps-call : {A : Type 0} (port : Port W A) → Keeps (Logged P) (call port)
  unfolding call
  Keeps-call port = record { keeps = λ s p. record { holds = p.holds } }

  pub Keeps-note :
      (d : Deed) → ((log : List Deed) → P log → P (d ∷ log)) → Keeps (Logged {W = W} P) (note d)
  unfolding note
  Keeps-note d h = record { keeps = λ s p. record { holds = h s.log p.holds } }

  pub Keeps-unless_exception :
      {A : Type 0} (m : Job W A) (other : WorkError → Job W A)
      → Keeps (Logged P) m
      → ((e : WorkError) → Keeps (Logged P) (other e))
      → Keeps (Logged P) (unless_exception m other)
  unfolding unless_exception
  Keeps-unless_exception m other km ko =
      Keeps-try_except m _ km
        λ e. Keeps-test (is_exception e) (other e) (raise e) (ko e) (Keeps-raise e)

  pub Keeps-unless_not_found :
      {A : Type 0} (m other : Job W A)
      → Keeps (Logged P) m
      → Keeps (Logged P) other
      → Keeps (Logged P) (unless_not_found m other)
  unfolding unless_not_found
  Keeps-unless_not_found m other km ko =
      Keeps-try_except m _ km λ e. Keeps-test (is_not_found e) other (raise e) ko (Keeps-raise e)

pub ruleset work_rules =
    (keeps_rules, Keeps-call, Keeps-note, Keeps-unless_exception, Keeps-unless_not_found)

pub same :
    {W : Type 0} {P T : List Deed → Type 0} {A : Type 0} {m : Job W A}
    → Keeps (Logged P) m
    → ((log : List Deed) → P log → T log)
    → Lands (Logged P) m (λ _. Logged P) (Logged T)
same k up = Lands-kept k (λ a s p. p) (λ s p. record { holds = up s.log p.holds })

pub noted :
    {W : Type 0} {P R T : List Deed → Type 0} (d : Deed)
    → ((log : List Deed) → P log → R (d ∷ log))
    → Lands (Logged {W = W} P) (note d) (λ _. Logged R) (Logged T)
unfolding note
noted d h = record { lands = λ s p. record { holds = h s.log p.holds } }

abbrev pub Ordered : List Deed → Type 0
Ordered log = in_order log ≡ true

-- Nothing is committed yet.
abbrev pub Before : List Deed → Type 0
Before log = Ordered log × (any_deed is_committed log ≡ false)

-- The file has been hashed to this digest and size.
abbrev pub Hashed : String → String → ℕ → List Deed → Type 0
Hashed path sha size log = Before log × (any_deed (is_hash path sha size) log ≡ true)

abbrev pub Verified : String → String → List Deed → Type 0
Verified key path log = Before log × (was_verified key path log ≡ true)

abbrev pub After : List Deed → Type 0
After log = Ordered log × (any_deed is_committed log ≡ true)

-- The log has grown by these deeds since `P` held.
abbrev pub Since : List Deed → (List Deed → Type 0) → List Deed → Type 0
Since deeds P log = (older : List Deed) × ((log ≡ deeds ++ older) × P older)

pub Since-start : {P : List Deed → Type 0} (log : List Deed) → P log → Since [] P log
Since-start log h = (log, (refl, h))

pub Since-note :
    {P : List Deed → Type 0} (deeds : List Deed) (d : Deed) (log : List Deed)
    → Since deeds P log
    → Since (d ∷ deeds) P (d ∷ log)
Since-note deeds d log (older, (e, h)) = (older, (ap (λ l. d ∷ l) e, h))

pub Before-final_removed :
    (key : String) (log : List Deed) → Before log → Before (Deed.final_removed key ∷ log)
unfolding in_order any_deed
Before-final_removed key log h = ground arith

pub Hashed-hashed :
    (path sha : String) (size : ℕ) (log : List Deed)
    → Before log
    → Hashed path sha size (Deed.hashed path sha size ∷ log)
unfolding in_order any_deed
Hashed-hashed path sha size log h =
    ground (
      arith,
      string_eq.equal_iff path path,
      string_eq.equal_iff sha sha,
      nat_eq.equal_iff size size,
    )

-- What a download has added to the log, and a hash, and a probe, and a decode.
abbrev pub downloads : String → String → List Deed
downloads key file = Deed.downloaded key file ∷ []

abbrev pub hashes : String → String → String × ℕ → List Deed
hashes key file actual = Deed.hashed file actual.0 actual.1 ∷ downloads key file

abbrev pub probes : String → String → String × ℕ → Bool → List Deed
probes key file actual canonical = Deed.probed file canonical ∷ hashes key file actual

abbrev pub decodes : String → String → String × ℕ → Bool → List Deed
decodes key file actual canonical = Deed.decoded file ∷ probes key file actual canonical

-- Reading changes nothing.
abbrev pub is_reading : Deed → Bool
is_reading (Deed.downloaded key path) = true
is_reading (Deed.hashed path sha size) = true
is_reading (Deed.probed path canonical) = true
is_reading (Deed.decoded path) = true
is_reading _ = false

abbrev pub are_readings : List Deed → Bool
are_readings [] = true
are_readings (d ∷ deeds) = let rest = are_readings deeds in is_reading d && rest

Before-reading : (d : Deed) (log : List Deed) → is_reading d ≡ true → Before log → Before (d ∷ log)
unfolding in_order any_deed
Before-reading (Deed.downloaded key path) log h b = b
Before-reading (Deed.hashed path sha size) log h b = b
Before-reading (Deed.probed path canonical) log h b = b
Before-reading (Deed.decoded path) log h b = b
Before-reading (Deed.committed key path) log h b = absurd (ground arith)
Before-reading (Deed.source_removed key) log h b = absurd (ground arith)
Before-reading (Deed.final_removed key) log h b = absurd (ground arith)

Before-readings :
    (deeds log : List Deed) → are_readings deeds ≡ true → Before log → Before (deeds ++ log)
Before-readings [] log h b = b
Before-readings (d ∷ deeds) log h b =
    Before-reading d (deeds ++ log) (ground arith) (Before-readings deeds log (ground arith) b)

pub Before-since :
    {P : List Deed → Type 0} (deeds log : List Deed)
    → are_readings deeds ≡ true
    → ((older : List Deed) → P older → Before older)
    → Since deeds P log
    → Before log
Before-since deeds log h up (older, (e, p)) =
    subst Before (sym e) (Before-readings deeds older h (up older p))

verification-Verified :
    (key file path sha : String) (size : ℕ) (older : List Deed)
    → Hashed path sha size older
    → Verified key path (decodes key file (sha, size) true ++ older)
unfolding in_order any_deed was_verified is_verification
verification-Verified key file path sha size older h =
    ground (arith, string_eq.equal_iff key key, string_eq.equal_iff file file)

pub Verified-decodes :
    (key file path sha : String) (size : ℕ) (actual : String × ℕ) (canonical : Bool)
    (log : List Deed)
    → (not (actual.0 == sha) || not (actual.1 == size)) ≡ false
    → not canonical ≡ false
    → Since (decodes key file actual canonical) (Hashed path sha size) log
    → Verified key path log
Verified-decodes key file path sha size (s, n) canonical log h k (older, (e, hashed)) =
    let same_sha : s ≡ sha = ground (arith, string_eq.equal_iff s sha) in
    let same_size : n ≡ size = ground (arith, nat_eq.equal_iff n size) in
    let found : canonical ≡ true = ground arith in
    subst (Verified key path) (sym e) (
      subst (λ t. Verified key path (decodes key file (t, n) canonical ++ older)) (sym same_sha)
        (subst (λ m. Verified key path (decodes key file (sha, m) canonical ++ older))
          (sym same_size)
          (subst (λ b. Verified key path (decodes key file (sha, size) b ++ older)) (sym found)
            (verification-Verified key file path sha size older hashed))))

pub After-committed :
    (key path : String) (log : List Deed)
    → Verified key path log
    → After (Deed.committed key path ∷ log)
unfolding in_order any_deed
After-committed key path log h = ground arith

pub After-source_removed :
    (key : String) (log : List Deed) → After log → After (Deed.source_removed key ∷ log)
unfolding in_order any_deed
After-source_removed key log h = ground arith
