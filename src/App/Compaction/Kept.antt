-- ===== src/App/Compaction/Kept.antt =====
-- What `compact_memory_entries` of liveclaw-app/src/main.rs keeps.
use liveclaw.Prelude.{
  ℕ, zero, suc, ◌+◌, ◌-◌, ◌/◌, ◌≤◌, ◌<◌, max, Char, Bool, true, false, ◌||◌, Option, none, some,
  List, [], ◌∷◌, ◌++◌, String, leb, ltb, leb→le, nat_eq, if◌then◌else◌, ◌≡◌, refl, subst, arith,
  ◌⊎◌, inr,
}
use liveclaw.Prelude.Lists.{length, take, drop, take-append-drop}
use liveclaw.App.Compaction.{
  utf8_length, truncate, byte_length, MemoryEntry, summary_entry, summary_text, bounded_text,
  compact_memory_entries,
}

-- A text, if there is one, of at most so many bytes.
abbrev Within : ℕ → Option String → Type 0
Within n none = Unit {0}
Within n (some t) = byte_length t ≤ n

cons-Within :
    (n k : ℕ) (c : Char) (r : Option String)
    → Within k r
    → utf8_length c + k ≤ n
    → Within n (elim r as (λ _. Option String) [ none ↦ none | some t ↦ some (String.◌∷◌ c t) ])
unfolding byte_length
cons-Within n k c none h l = tt
cons-Within n k c (some t) h l = omega (arith, h, l)

if-Within :
    (n : ℕ) (b : Bool) (r s : Option String)
    → (b ≡ true → Within n r)
    → (b ≡ false → Within n s)
    → Within n (if b then r else s)
if-Within n true r s h k = h refl
if-Within n false r s h k = k refl

truncate-Within : (n : ℕ) (s : String) → Within n (truncate n s)
unfolding truncate byte_length
truncate-Within n String.[] = omega arith
truncate-Within zero (String.◌∷◌ c s) = omega arith
truncate-Within (suc n) (String.◌∷◌ c s) =
    if-Within (suc n) (leb (utf8_length c) (suc n)) _ none
      (λ fits.
        cons-Within (suc n) (suc n - utf8_length c) c _ (truncate-Within (suc n - utf8_length c) s)
          (omega (arith, leb→le (utf8_length c) (suc n) fits)))
      (λ _. tt)

bounded_text-Within : (s : String) → Within 4096 (bounded_text s)
unfolding bounded_text
bounded_text-Within s =
    if-Within 4096 (ltb 4096 (byte_length s)) _ _ (λ _. truncate-Within 4096 s)
      (λ short. ground (arith, short))

length-drop : (n : ℕ) (xs : List MemoryEntry) → length (drop n xs) ≡ length xs - n
length-drop zero xs = omega arith
length-drop (suc n) [] = omega arith
length-drop (suc n) (x ∷ xs) = omega (arith, length-drop n xs)

module _ (now threshold : ℕ) (entries : List MemoryEntry) where
  -- The ways that a call ends: nothing is done; or the older entries become one; or the cut at 4096
  -- bytes would fall inside a character, and the call panics.
  pub data Outcome : Option (List MemoryEntry × Bool) → Type 0 where
    left_alone : (threshold < 2) ⊎ (length entries ≤ threshold) → Outcome (some (entries, false))
    compacted :
        (text : String) (before recent : List MemoryEntry)
        → 2 ≤ threshold
        → threshold < length entries
        → before ++ recent ≡ entries
        → length recent ≡ max 1 (threshold / 2)
        → byte_length text ≤ 4096
        → Outcome (some (summary_entry now text ∷ recent, true))
    cut_inside :
        4096 < byte_length (summary_text (length entries - max 1 (threshold / 2)) entries)
        → Outcome none

  after_text :
      (r : Option String)
      → bounded_text (summary_text (length entries - max 1 (threshold / 2)) entries) ≡ r
      → Within 4096 r
      → 2 ≤ threshold
      → threshold < length entries
      → Outcome (elim r as (λ _. Option (List MemoryEntry × Bool)) [
        | none ↦ none
        | some text ↦
            some
              (summary_entry now text ∷ drop (length entries - max 1 (threshold / 2)) entries, true)
      ])
  unfolding bounded_text
  after_text none e short h k = cut_inside (ground (arith, e))
  after_text (some text) e short h k =
      let n = length entries - max 1 (threshold / 2) in
      compacted text (take n entries) (drop n entries) h k (take-append-drop n entries)
        (omega (arith, length-drop n entries)) short

  choose :
      (b : Bool) (r s : Option (List MemoryEntry × Bool))
      → (b ≡ true → Outcome r)
      → (b ≡ false → Outcome s)
      → Outcome (if b then r else s)
  choose true r s h k = h refl
  choose false r s h k = k refl

  -- A compaction either leaves the entries alone, where the threshold is below 2 or not exceeded;
  -- or replaces all but the last `max(1, threshold / 2)` of them, which stay in their order, by one
  -- summary of at most 4096 bytes; or it panics, and then the summary is longer than 4096 bytes.
  pub compact_memory_entries-Outcome : Outcome (compact_memory_entries now threshold entries)
  unfolding compact_memory_entries
  compact_memory_entries-Outcome =
      let n = length entries - max 1 (threshold / 2) in
      let text = bounded_text (summary_text n entries) in
      choose (ltb threshold 2 || leb (length entries) threshold) _ _
        (λ few. left_alone (ground (arith, few)))
        (λ many.
          choose (nat_eq n 0) _ _ (λ none_old. left_alone (ground (arith, many, none_old)))
            (λ _.
              after_text text refl (bounded_text-Within (summary_text n entries))
                (ground (arith, many)) (ground (arith, many))))

module _ (threshold : ℕ) where
  Small : Option (List MemoryEntry × Bool) → Type 0
  Small none = Unit {0}
  Small (some (kept, done)) = (threshold < 2) ⊎ (length kept ≤ threshold)

  few_after :
      (now : ℕ) (entries : List MemoryEntry) (r : Option (List MemoryEntry × Bool))
      → Outcome now threshold entries r
      → Small r
  unfolding Small
  few_after now entries _ (left_alone few) = few
  few_after now entries _ (compacted text before recent h k whole l short) =
      inr (omega (arith, h, l))
  few_after now entries _ (cut_inside long) = tt

  idle :
      (now : ℕ) (kept : List MemoryEntry)
      → (threshold < 2) ⊎ (length kept ≤ threshold)
      → compact_memory_entries now threshold kept ≡ some (kept, false)
  unfolding compact_memory_entries
  idle now kept few = ground (arith, few)

  -- A second compaction by the same threshold, at any time, does nothing to what a first one left.
  pub compact_memory_entries-idle :
      (now later : ℕ) (entries kept : List MemoryEntry) (done : Bool)
      → compact_memory_entries now threshold entries ≡ some (kept, done)
      → compact_memory_entries later threshold kept ≡ some (kept, false)
  unfolding Small
  compact_memory_entries-idle now later entries kept done e = idle later kept (
      subst Small e
        (few_after now entries _ (compact_memory_entries-Outcome now threshold entries)))
