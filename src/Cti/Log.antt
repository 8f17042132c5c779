-- ===== src/Cti/Log.antt =====
-- The bounded rings of numbered entries in src/local_cti_events.h and src/local_cti_requests.h.
use axe_voice_desktop.Prelude.{
  ℕ, ◌+◌, ◌-◌, ◌≤◌, ◌<◌, ◌≡◌, if◌then◌else◌, ltb, List, [], ◌∷◌, ◌++◌, refl, arith, length,
  pop_front, length-append,
}

-- `push_back`, and `pop_front` when the deque has become too long.
abbrev pub push_bounded {ℓ} : {A : Type ℓ} → ℕ → List A → A → List A
push_bounded n xs x = let ys = xs ++ x ∷ [] in if ltb n (length ys) then pop_front ys else ys

module _ {ℓ} {A : Type ℓ} (sequence : A → ℕ) where
  -- `events_.empty()?0:events_.front().sequence`
  abbrev pub oldest : List A → ℕ
  oldest [] = 0
  oldest (e ∷ es) = sequence e

  -- The entries with a number after the cursor.
  abbrev pub newer : List A → ℕ → List A
  newer [] cursor = []
  newer (e ∷ es) cursor =
      let rest = newer es cursor in if ltb cursor (sequence e) then e ∷ rest else rest

  -- The entries are numbered one by one, after `n`.
  pub Consecutive : ℕ → List A → Type 0
  Consecutive n [] = Unit
  Consecutive n (e ∷ es) = (sequence e ≡ n + 1) × Consecutive (n + 1) es

  pub Consecutive-none : (n : ℕ) → Consecutive n []
  unfolding Consecutive
  Consecutive-none n = tt

  Consecutive-append :
      (n : ℕ) (es : List A) (e : A)
      → Consecutive n es
      → sequence e ≡ n + length es + 1
      → Consecutive n (es ++ e ∷ [])
  unfolding Consecutive
  Consecutive-append n [] e c h = (omega arith, tt)
  Consecutive-append n (x ∷ es) e c h = (c.0, Consecutive-append (n + 1) es e c.1 (omega arith))

  -- At most `k` entries, numbered one by one up to `last`.
  pub record IsLog (k last : ℕ) (es : List A) : Type 0 where
    pub room : length es ≤ k
    pub known : length es ≤ last
    pub numbered : Consecutive (last - length es) es

  IsLog-numbered :
      (k last n : ℕ) (es : List A)
      → length es ≤ k
      → n + length es ≡ last
      → Consecutive n es
      → IsLog k last es
  IsLog-numbered k last n es room e c =
      let same : last - length es ≡ n = omega arith in
      record { room = room; known = omega arith; numbered = rw same c }

  pub IsLog-none : (k last : ℕ) → IsLog k last []
  IsLog-none k last =
      IsLog-numbered k last last [] (omega arith) (omega arith) (Consecutive-none last)

  -- The first entry is gone.
  pushed-IsLog :
      (k last n : ℕ) (es : List A) (e : A)
      → n + length es ≡ last
      → length es ≤ k
      → 0 < k
      → Consecutive n es
      → sequence e ≡ last + 1
      → IsLog k (last + 1) (push_bounded k es e)
  unfolding Consecutive
  pushed-IsLog k last n [] e sum room pos c h =
      ground (arith, IsLog-numbered k (last + 1) n (e ∷ []), Consecutive-append n [] e tt)
  pushed-IsLog k last n (x ∷ xs) e sum room pos c h = ground (
    arith,
    length-append xs (e ∷ []),
    IsLog-numbered k (last + 1) n (x ∷ xs ++ e ∷ []),
    IsLog-numbered k (last + 1) (n + 1) (xs ++ e ∷ []),
    Consecutive-append n (x ∷ xs) e c,
    Consecutive-append (n + 1) xs e c.1,
  )

  -- A bounded push keeps a log a log.
  pub push_bounded-IsLog :
      (k last : ℕ) (es : List A) (e : A)
      → 0 < k
      → IsLog k last es
      → sequence e ≡ last + 1
      → IsLog k (last + 1) (push_bounded k es e)
  push_bounded-IsLog k last es e pos v h =
      pushed-IsLog k last (last - length es) es e (omega (arith, v.known)) v.room pos v.numbered h

  newer_all : (n cursor : ℕ) (es : List A) → cursor ≤ n → Consecutive n es → newer es cursor ≡ es
  unfolding Consecutive
  newer_all n cursor [] h c = refl
  newer_all n cursor (e ∷ es) h c =
      let later = newer_all (n + 1) cursor es (omega arith) c.1 in ground (arith, c.0, later)

  -- From a cursor that is not before the ring, the newer entries are numbered one by one up to the
  -- last.
  pub newer_complete :
      (n cursor : ℕ) (es : List A)
      → n ≤ cursor
      → cursor ≤ n + length es
      → Consecutive n es
      → Consecutive cursor (newer es cursor) × (cursor + length (newer es cursor) ≡ n + length es)
  unfolding Consecutive
  newer_complete n cursor [] low high c = (tt, omega arith)
  newer_complete n cursor (e ∷ es) low high c =
      let all = newer_all (n + 1) cursor es in
      let later = newer_complete (n + 1) cursor es in ground (arith, c, all, later)

  -- The first number of the ring.
  pub oldest_number : (n : ℕ) (es : List A) → 0 < length es → Consecutive n es → oldest es ≡ n + 1
  unfolding Consecutive
  oldest_number n [] h c = ground arith
  oldest_number n (e ∷ es) h c = c.0
