-- ===== src/Logger/Lines.antt =====
-- The lines that components/core/src/logger.c makes.
use espshell.Prelude.{
  ℕ, ◌-◌, ◌≤◌, ◌<◌, ◌≡◌, ◌≢◌, refl, Bool, true, ◌&&◌, List, [], ◌∷◌, ◌++◌, Option, none, some, leb,
  ◌==◌, length, length-append, length-take, length-map, take, map, codes, All, All-append, arith,
  Bool-cases, inl, inr,
}
use espshell.Logger.{log_header, one_line, log_line, level_str, or_dash}

-- A frame's text in one line: no line end, and no more than a buffer of 256 bytes takes.
pub record IsLine (line : List ℕ) : Type 0 where
  pub plain : All (λ c. (c ≢ b'\n') × (c ≢ b'\r')) line
  pub fits : length line ≤ 255
  pub event : take 8 line ≡ codes "EVT LOG "

abbrev pub Plain : ℕ → Type 0
Plain c = (c ≢ b'\n') × (c ≢ b'\r')

one_line-Plain : (text : List ℕ) → All Plain (map one_line text)
one_line-Plain [] = tt
one_line-Plain (c ∷ text) = (plain c, one_line-Plain text)
  where
    plain : (c : ℕ) → Plain (one_line c)
    plain c = (λ e. ground arith, λ e. ground arith)

abbrev all_letters : List ℕ → Bool
all_letters [] = true
all_letters (c ∷ s) = leb 32 c && all_letters s

-- Texts of capital letters, `?`, `-` and spaces.
letters : (s : List ℕ) → all_letters s ≡ true → All Plain s
letters [] e = tt
letters (c ∷ s) e = ((λ n. ground arith, λ n. ground arith), letters s (ground arith))

tag-Plain :
    (tag : Option (List ℕ)) → ((t : List ℕ) → tag ≡ some t → All Plain t) → All Plain (or_dash tag)
tag-Plain none h = letters (codes "-") refl
tag-Plain (some t) h = h t refl

level_str-Plain : (lvl : ℕ) → All Plain (level_str lvl)
unfolding level_str
level_str-Plain lvl = elim (Bool-cases (lvl == 1)) [
  | inl e ↦ rw e (letters (codes "ERR") refl)
  | inr e1 ↦ elim (Bool-cases (lvl == 2)) [
    | inl e ↦ rw (e1, e) (letters (codes "WARN") refl)
    | inr e2 ↦ elim (Bool-cases (lvl == 3)) [
      | inl e ↦ rw (e1, e2, e) (letters (codes "INFO") refl)
      | inr e3 ↦ elim (Bool-cases (lvl == 4)) [
        | inl e ↦ rw (e1, e2, e3, e) (letters (codes "DEBUG") refl)
        | inr e4 ↦ elim (Bool-cases (lvl == 5)) [
          | inl e ↦ rw (e1, e2, e3, e4, e) (letters (codes "VERB") refl)
          | inr e5 ↦ rw (e1, e2, e3, e4, e5) (letters (codes "?") refl)
        ]
      ]
    ]
  ]
]

log_header-Plain :
    (lvl : ℕ) (tag : Option (List ℕ))
    → ((t : List ℕ) → tag ≡ some t → All Plain t)
    → All Plain (log_header lvl tag)
unfolding log_header
log_header-Plain lvl tag h =
    All-append Plain (codes "EVT LOG ") (level_str lvl ++ (codes " " ++ (or_dash tag ++ codes " ")))
      (letters (codes "EVT LOG ") refl)
      (All-append Plain (level_str lvl) (codes " " ++ (or_dash tag ++ codes " "))
        (level_str-Plain lvl)
        (All-append Plain (codes " ") (or_dash tag ++ codes " ") (letters (codes " ") refl) (
          All-append Plain (or_dash tag) (codes " ") (tag-Plain tag h) (letters (codes " ") refl))))

pub log_line-IsLine :
    (lvl : ℕ) (tag : Option (List ℕ)) (text : List ℕ)
    → ((t : List ℕ) → tag ≡ some t → All Plain t)
    → length (log_header lvl tag) < 256
    → IsLine (log_line (log_header lvl tag) text)
unfolding log_line
log_line-IsLine lvl tag text h room =
    let hdr = log_header lvl tag in
    let kept = take (256 - length hdr - 1) text in
    record {
      plain =
          All-append Plain hdr (map one_line kept) (log_header-Plain lvl tag h)
            (one_line-Plain kept);
      fits = omega (
        arith,
        length-append hdr (map one_line kept),
        length-map kept one_line,
        length-take (256 - length hdr - 1) text,
      );
      event = unfold log_header in refl;
    }
