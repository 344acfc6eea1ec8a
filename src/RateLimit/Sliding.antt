-- ===== src/RateLimit/Sliding.antt =====
-- The deque is the sliding window: dropping from its front loses nothing that still counts.
use strikefluency.Prelude.{
  sym, ◌∙◌, ap, inr, inl, true, false, suc, ◌-◌, All-append, leb, length, ltb, refl, Bool-cases, [],
  arith, if◌then◌else◌, ◌+◌, All, Bool, ◌++◌, ◌<◌, ◌∷◌, ◌≡◌, ◌≤◌, List, ℕ,
}
use strikefluency.RateLimit.Window.{admit, admit_all, drop_old}

-- The number of passed requests that are less than a window old.
abbrev pub recent : ℕ → ℕ → List ℕ → ℕ
recent window now [] = 0
recent window now (t ∷ log) =
    let rest = recent window now log in if ltb now (t + window) then suc rest else rest

-- The guard with nothing forgotten: a request passes where fewer than `limit` of all that passed
-- are less than a window old.
abbrev pub sliding : ℕ → ℕ → List ℕ → List ℕ → List Bool
sliding limit window log [] = []
sliding limit window log (now ∷ nows) =
    if leb limit (recent window now log)
    then false ∷ sliding limit window log nows
    else true ∷ sliding limit window (log ++ (now ∷ [])) nows

-- Times that do not go back, from `from` on.
abbrev pub IsMonotone : ℕ → List ℕ → Type 0
IsMonotone from [] = Unit
IsMonotone from (now ∷ nows) = (from ≤ now) × IsMonotone now nows

-- Times in order, none after `last`.
abbrev IsBefore : ℕ → List ℕ → Type 0
IsBefore last [] = Unit
IsBefore last (t ∷ ts) = (t ≤ last) × All (λ u. t ≤ u) ts × IsBefore last ts

-- A window old or more.
abbrev AllOld : ℕ → ℕ → List ℕ → Type 0
AllOld window now = All (λ t. t + window ≤ now)

recent-append :
    (window now : ℕ) (xs ys : List ℕ)
    → recent window now (xs ++ ys) ≡ recent window now xs + recent window now ys
recent-append window now [] ys = omega arith
recent-append window now (x ∷ xs) ys = ground (arith, recent-append window now xs ys)

recent-AllOld : (window now : ℕ) (xs : List ℕ) → AllOld window now xs → recent window now xs ≡ 0
recent-AllOld window now [] h = refl
recent-AllOld window now (x ∷ xs) (h, hs) = ground (arith, recent-AllOld window now xs hs)

AllOld-later :
    (window now later : ℕ) (xs : List ℕ)
    → now ≤ later
    → AllOld window now xs
    → AllOld window later xs
AllOld-later window now later [] le h = tt
AllOld-later window now later (x ∷ xs) le (h, hs) =
    (omega arith, AllOld-later window now later xs le hs)

IsBefore-later : (now later : ℕ) (xs : List ℕ) → now ≤ later → IsBefore now xs → IsBefore later xs
IsBefore-later now later [] le h = tt
IsBefore-later now later (x ∷ xs) le (h, hs, rest) =
    (omega arith, hs, IsBefore-later now later xs le rest)

before_all : (now : ℕ) (xs : List ℕ) → IsBefore now xs → All (λ t. t ≤ now) xs
before_all now [] h = tt
before_all now (x ∷ xs) (h, _, rest) = (h, before_all now xs rest)

IsBefore-snoc : (now : ℕ) (xs : List ℕ) → IsBefore now xs → IsBefore now (xs ++ (now ∷ []))
IsBefore-snoc now [] h = (omega arith, tt, tt)
IsBefore-snoc now (x ∷ xs) (h, hs, rest) =
    (h, All-append (λ u. x ≤ u) xs (now ∷ []) hs (h, tt), IsBefore-snoc now xs rest)

-- In order from one that still counts, all count.
all_recent :
    (window now x : ℕ) (xs : List ℕ)
    → now < x + window
    → All (λ u. x ≤ u) xs
    → recent window now xs ≡ length xs
all_recent window now x [] h k = refl
all_recent window now x (y ∷ xs) h (k, ks) = ground (arith, all_recent window now x xs h ks)

-- What the front loses is old, and what is left counts.
record Dropped (window now : ℕ) (events : List ℕ) : Type 0 where
  gone : List ℕ
  split : events ≡ gone ++ drop_old window now events
  old : AllOld window now gone
  ordered : IsBefore now (drop_old window now events)
  counts : recent window now (drop_old window now events) ≡ length (drop_old window now events)

cons_eq : (x : ℕ) (xs ys : List ℕ) → xs ≡ ys → x ∷ xs ≡ x ∷ ys
cons_eq x xs ys h = cc

drop_old-Dropped :
    (window now : ℕ) (events : List ℕ)
    → 0 < window
    → IsBefore now events
    → Dropped window now events
drop_old-Dropped window now [] h k = record {
  gone = [];
  split = refl;
  old = tt;
  ordered = tt;
  counts = refl;
}
drop_old-Dropped window now (t ∷ events) h (le, after, rest) =
    let d = drop_old-Dropped window now events h rest in
    elim (Bool-cases (leb window (now - t))) [
      | inl expired ↦
          let old : t + window ≤ now = ground arith in
          record {
            gone = t ∷ d.gone;
            split = rw expired (cons_eq t events _ d.split);
            old = (old, d.old);
            ordered = rw expired d.ordered;
            counts = rw expired d.counts;
          }
      | inr fresh ↦
          let young : now < t + window = ground arith in
          record {
            gone = [];
            split = rw fresh refl;
            old = tt;
            ordered = rw fresh (le, after, rest);
            counts = rw fresh (ground (arith, all_recent window now t events young after));
          }
    ]

zero_add : (n : ℕ) → 0 + n ≡ n
zero_add n = omega arith

append_assoc : (xs ys zs : List ℕ) → (xs ++ ys) ++ zs ≡ xs ++ (ys ++ zs)
append_assoc [] ys zs = refl
append_assoc (x ∷ xs) ys zs = cons_eq x _ _ (append_assoc xs ys zs)

module _ (limit window : ℕ) (positive : 0 < window) where
  admit_all-from :
      (old events nows : List ℕ) (last : ℕ)
      → AllOld window last old
      → IsBefore last events
      → IsMonotone last nows
      → admit_all limit window events nows ≡ sliding limit window (old ++ events) nows
  unfolding admit
  admit_all-from old events [] last h k mono = refl
  admit_all-from old events (now ∷ nows) last h k (le, mono) =
      let d = drop_old-Dropped window now events positive (IsBefore-later last now events le k) in
      let kept = drop_old window now events in
      let old' = old ++ d.gone in
      let all_old : AllOld window now old' =
        All-append (λ t. t + window ≤ now) old d.gone (AllOld-later window last now old le h)
          d.old in
      let log : old ++ events ≡ old' ++ kept =
        ap (λ e. old ++ e) d.split ∙ sym (append_assoc old d.gone kept) in
      let count : recent window now (old' ++ kept) ≡ length kept =
        recent-append window now old' kept
        ∙ ap (λ n. n + recent window now kept) (recent-AllOld window now old' all_old)
        ∙ zero_add _
        ∙ d.counts in
      elim (Bool-cases (leb limit (length kept))) [
        | inl full ↦
            rw (log, count, full)
              (ap (λ b. false ∷ b) (admit_all-from old' kept nows now all_old d.ordered mono))
        | inr free ↦
            rw (log, count, free)
              (ap (λ b. true ∷ b)
                (admit_all-from old' (kept ++ (now ∷ [])) nows now all_old
                    (IsBefore-snoc now kept d.ordered) mono
                  ∙ ap (λ l. sliding limit window l nows)
                      (sym (append_assoc old' kept (now ∷ [])))))
      ]

  -- On a clock that does not go back, and for a window that is not empty: the deque, which forgets
  -- what it drops from its front, lets through exactly the requests before which fewer than `limit`
  -- of all that passed were less than a window old.
  pub admit_all-sliding :
      (nows : List ℕ)
      → IsMonotone 0 nows
      → admit_all limit window [] nows ≡ sliding limit window [] nows
  admit_all-sliding nows = admit_all-from [] [] nows 0 tt tt
