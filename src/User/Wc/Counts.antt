-- ===== src/User/Wc/Counts.antt =====
-- What wc counts.
use mits081_lab.Base.{
  ℕ, ◌+◌, ◌≡◌, refl, ◌∙◌, sym, ap, Bool, false, not, Option, none, some, List, [], ◌∷◌, ◌++◌, ◌==◌,
  if◌then◌else◌, arith, length,
}
use mits081_lab.User.Wc.{Counters, separates, count, count_all, wc_from, wc}

-- the number of newlines
pub newlines : List ℕ → ℕ
newlines [] = 0
newlines (b ∷ bs) = (if b == b'\n' then 1 else 0) + newlines bs

-- 1 for the first byte of a word
abbrev pub starts_word : Option ℕ → ℕ → ℕ
starts_word none b = if separates b then 0 else 1
starts_word (some a) b = if separates b then 0 else if separates a then 1 else 0

-- The number of words: of the bytes that separate nothing, and stand at the start of the text or after a byte that
-- separates words. `after` is the byte before the text, if there is one.
pub words_after : Option ℕ → List ℕ → ℕ
words_after before [] = 0
words_after before (b ∷ bs) = starts_word before b + words_after (some b) bs

pub words : List ℕ → ℕ
words bs = words_after none bs

pub text : List (List ℕ) → List ℕ
text [] = []
text (bs ∷ reads) = bs ++ text reads

-- Each call of `read` gives some bytes.
pub data Nonempty : List (List ℕ) → Type 0 where
  done : Nonempty []
  more :
      {b : ℕ} {bs : List ℕ} {reads : List (List ℕ)} → Nonempty reads → Nonempty ((b ∷ bs) ∷ reads)

count_all-append :
    (xs ys : List ℕ) (s : Counters) → count_all (xs ++ ys) s ≡ count_all ys (count_all xs s)
unfolding count_all
count_all-append [] ys s = refl
count_all-append (x ∷ xs) ys s = count_all-append xs ys (count x s)

-- The outer loop counts the text that the calls give one after another.
wc_from-text :
    {reads : List (List ℕ)}
    → Nonempty reads
    → (s : Counters) → wc_from reads s ≡ count_all (text reads) s
unfolding wc_from text count_all
wc_from-text done s = refl
wc_from-text (more {b = b} {bs = bs} {reads = reads} h) s =
    wc_from-text h (count_all bs (count b s)) ∙ sym (count_all-append bs (text reads) (count b s))

-- whether the byte before the text is in a word
abbrev is_in_word : Option ℕ → Bool
is_in_word none = false
is_in_word (some a) = not (separates a)

count_lines : (b : ℕ) (s : Counters) → (count b s).l ≡ s.l + (if b == b'\n' then 1 else 0)
unfolding count
count_lines b s = ground arith

count_words :
    (before : Option ℕ) (b : ℕ) (s : Counters)
    → s.inword ≡ is_in_word before
    → (count b s).w ≡ s.w + starts_word before b
unfolding count
count_words none b s h = ground (arith, h)
count_words (some a) b s h = ground (arith, h)

count_bytes : (b : ℕ) (s : Counters) → (count b s).c ≡ s.c + 1
unfolding count
count_bytes b s = refl

count_inword : (b : ℕ) (s : Counters) → (count b s).inword ≡ is_in_word (some b)
unfolding count
count_inword b s = refl

count_all_lem :
    (bs : List ℕ) (before : Option ℕ) (s : Counters)
    → s.inword ≡ is_in_word before
    → ((count_all bs s).l ≡ s.l + newlines bs)
      × ((count_all bs s).w ≡ s.w + words_after before bs)
      × ((count_all bs s).c ≡ s.c + length bs)
unfolding count_all newlines words_after
count_all_lem [] before s h = (omega arith, omega arith, omega arith)
count_all_lem (b ∷ bs) before s h =
    let (lines, number, bytes) = count_all_lem bs (some b) (count b s) (count_inword b s) in
    (
      omega (arith, lines, count_lines b s),
      omega (arith, number, count_words before b s h),
      omega (arith, bytes, count_bytes b s),
    )

abbrev start : Counters
start = record { l = 0; w = 0; c = 0; inword = false }

shown :
    (s : Counters) {l w c : ℕ}
    → s.l ≡ l
    → s.w ≡ w
    → s.c ≡ c
    → ◌≡◌ {A = Option (ℕ × ℕ × ℕ)} (some (s.l, s.w, s.c)) (some (l, w, c))
shown s e f g = rw (e, f, g) refl

-- For any division of a text into calls of `read`, `wc` prints its numbers of newlines, of words, and of bytes.
pub wc-text :
    (reads : List (List ℕ))
    → Nonempty reads
    → wc reads false ≡ some (newlines (text reads), words (text reads), length (text reads))
unfolding wc words
wc-text reads h =
    let (lines, number, bytes) = count_all_lem (text reads) none start refl in
    let same : wc_from reads start ≡ count_all (text reads) start = wc_from-text h start in
    shown (wc_from reads start) (ap {A = Counters} (λ s. s.l) same ∙ lines ∙ omega arith)
      (ap {A = Counters} (λ s. s.w) same ∙ number ∙ omega arith)
      (ap {A = Counters} (λ s. s.c) same ∙ bytes ∙ omega arith)
