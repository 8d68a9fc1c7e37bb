-- ===== src/Profile/Sections.antt =====
-- The sections of devices.toml as `profile_load` of tools/esp-ctl/src/profile.c reads them.
use espshell.Prelude.{
  ℕ, ◌≤◌, ◌<◌, ◌^◌, ◌≡◌, ◌≢◌, refl, ap, sym, ◌∙◌, Bool, true, false, List, [], ◌∷◌, ◌++◌,
  append_assoc, length, length-append, some, ◌==◌, ◌||◌, if◌then◌else◌, bytes_eq, codes, All,
  All-append, All-imp, arith,
}
use espshell.Clib.{c_string, print_int, atoi}
use espshell.Clib.Numbers.{IsDigit, print_int-IsDigit, print_int-nonempty, atoi-print_int}
use espshell.Ctl.Main.{strip_end}
use espshell.Profile.{
  Scan, rstrip, lskip, cut_at, unquote, set_field, field_line, section_line, stripped_line,
  load_line, is_blank, quoted,
}

-- What stands in front of a byte that is kept is kept.
strip_end-keeps :
    (end : ℕ → Bool) (s t : List ℕ) (c : ℕ) (u : List ℕ)
    → strip_end end t ≡ c ∷ u
    → strip_end end (s ++ t) ≡ s ++ (c ∷ u)
unfolding strip_end
strip_end-keeps end [] t c u e = e
strip_end-keeps end (d ∷ []) t c u e = rw e refl
strip_end-keeps end (d ∷ d' ∷ s) t c u e = rw (strip_end-keeps end (d' ∷ s) t c u e) refl

cut_at-plain :
    (mark : ℕ) (s t : List ℕ) → All (λ c. c ≢ mark) s → cut_at mark (s ++ (mark ∷ t)) ≡ some (s, t)
unfolding cut_at
cut_at-plain mark [] t a = let same : (mark == mark) ≡ true = ground arith in rw same refl
cut_at-plain mark (c ∷ s) t (h, a) =
    let other : (c == mark) ≡ false = ground arith in rw (other, cut_at-plain mark s t a) refl

-- A character of a host, a token or a section's name: printing, no quote, no bracket.
abbrev pub IsNice : ℕ → Type 0
IsNice c = (35 ≤ c) × (c ≤ 126) × (c ≢ b']')

c_string-kept : (s : List ℕ) → All (λ c. 1 ≤ c) s → c_string s ≡ s
unfolding c_string
c_string-kept [] a = refl
c_string-kept (c ∷ s) (h, a) =
    let more : (c == 0) ≡ false = ground arith in rw more (ap (λ t. c ∷ t) (c_string-kept s a))

nice-kept : (s : List ℕ) → All IsNice s → All (λ c. 1 ≤ c) s
nice-kept s a = All-imp IsNice (λ c. 1 ≤ c) s (λ c h. omega arith) a

-- The lines of a section, as an editor writes them.
abbrev pub title_line : List ℕ → List ℕ
title_line name = b'[' ∷ (name ++ codes "]\n")

abbrev pub host_line : List ℕ → List ℕ
host_line host = codes "host = \"" ++ (host ++ codes "\"\n")

abbrev pub token_line : List ℕ → List ℕ
token_line token = codes "token = \"" ++ (token ++ codes "\"\n")

abbrev pub port_line : ℕ → List ℕ
port_line port = codes "port = " ++ (print_int port ++ codes "\n")

-- The end of a line is stripped.
rstrip-plain : (s : List ℕ) → All (λ c. 33 ≤ c) s → rstrip (s ++ (b'\n' ∷ [])) ≡ s
unfolding rstrip strip_end
rstrip-plain [] a = refl
rstrip-plain (c ∷ []) (h, a) =
    let kept : (c == b'\n' || (c == b'\r' || is_blank c)) ≡ false = ground arith in rw kept refl
rstrip-plain (c ∷ d ∷ s) (h, a) =
    let rest : strip_end (λ c. c == b'\n' || (c == b'\r' || is_blank c)) (d ∷ (s ++ (b'\n' ∷ [])))
        ≡ d ∷ s =
      rstrip-plain (d ∷ s) a in
    rw rest refl

rstrip-word :
    (front s : List ℕ)
    → All (λ c. 33 ≤ c) s
    → 0 < length s
    → rstrip (front ++ (s ++ (b'\n' ∷ []))) ≡ front ++ s
rstrip-word front [] a h = absurd (omega arith)
rstrip-word front (c ∷ s) a h =
    let end = rstrip-plain (c ∷ s) a in
    unfold rstrip in
    strip_end-keeps (λ c. c == b'\n' || (c == b'\r' || is_blank c)) front ((c ∷ s) ++ (b'\n' ∷ []))
      c s end

-- A line whose last word has no white space.
line_kept :
    (name front s : List ℕ) (st : Scan)
    → All (λ c. 1 ≤ c) front
    → All (λ c. 33 ≤ c) s
    → 0 < length s
    → load_line name st (front ++ (s ++ (b'\n' ∷ []))) ≡ stripped_line name st (lskip (front ++ s))
unfolding load_line
line_kept name front s st in_front in_word h =
    let line = front ++ (s ++ (b'\n' ∷ [])) in
    let whole =
      All-append (λ c. 1 ≤ c) front (s ++ (b'\n' ∷ [])) in_front
        (All-append (λ c. 1 ≤ c) s (b'\n' ∷ [])
          (All-imp (λ c. 33 ≤ c) (λ c. 1 ≤ c) s (λ c k. omega arith) in_word) (omega arith)) in
    ap (λ l. stripped_line name st (lskip (rstrip l))) (c_string-kept line whole)
    ∙ ap (λ l. stripped_line name st (lskip l)) (rstrip-word front s in_word h)

visible : (s end : List ℕ) → All IsNice s → All (λ c. 33 ≤ c) end → All (λ c. 33 ≤ c) (s ++ end)
visible s end a b =
    All-append (λ c. 33 ≤ c) s end (All-imp IsNice (λ c. 33 ≤ c) s (λ c h. omega arith) a) b

long : (s : List ℕ) (c : ℕ) → 0 < length (s ++ (c ∷ []))
long s c = omega (arith, length-append s (c ∷ []))

pub title_step :
    (name title : List ℕ) (st : Scan)
    → All IsNice title
    → load_line name st (title_line title) ≡ record st { in_section = bytes_eq title name }
unfolding stripped_line lskip section_line
title_step name title st a =
    let word = title ++ (b']' ∷ []) in
    ap (λ l. load_line name st (b'[' ∷ l)) (sym (append_assoc title (b']' ∷ []) (b'\n' ∷ [])))
    ∙ (line_kept name (b'[' ∷ []) word st (omega arith) (visible title (b']' ∷ []) a (omega arith))
          (long title b']')
        ∙ ap (section_line name st)
            (cut_at-plain b']' title [] (All-imp IsNice (λ c. c ≢ b']') title (λ c h. h.2) a)))

unquoted : (s : List ℕ) → All IsNice s → unquote (b'"' ∷ (s ++ (b'"' ∷ []))) ≡ s
unfolding unquote lskip
unquoted s a =
    ap (quoted (s ++ (b'"' ∷ [])))
      (cut_at-plain b'"' s [] (All-imp IsNice (λ c. c ≢ b'"') s (λ c h e. omega arith) a))

pub host_step :
    (name host : List ℕ) (st : Scan)
    → All IsNice host
    → load_line name st (host_line host) ≡ (
        if Scan.in_section st
        then record st { out = record (Scan.out st) { host = some host } }
        else st)
unfolding stripped_line lskip field_line set_field cut_at bytes_eq rstrip strip_end
host_step name host st a =
    let word = host ++ (b'"' ∷ []) in
    ap (λ l. load_line name st (codes "host = \"" ++ l))
      (sym (append_assoc host (b'"' ∷ []) (b'\n' ∷ [])))
    ∙ (line_kept name (codes "host = \"") word st (omega arith)
          (visible host (b'"' ∷ []) a (omega arith)) (long host b'"')
        ∙ ap
            (λ h.
              if Scan.in_section st
              then record st { out = record (Scan.out st) { host = some h } }
              else st)
            (unquoted host a))

pub token_step :
    (name token : List ℕ) (st : Scan)
    → All IsNice token
    → load_line name st (token_line token) ≡ (
        if Scan.in_section st
        then record st { out = record (Scan.out st) { token = some token } }
        else st)
unfolding stripped_line lskip field_line set_field cut_at bytes_eq rstrip strip_end
token_step name token st a =
    let word = token ++ (b'"' ∷ []) in
    ap (λ l. load_line name st (codes "token = \"" ++ l))
      (sym (append_assoc token (b'"' ∷ []) (b'\n' ∷ [])))
    ∙ (line_kept name (codes "token = \"") word st (omega arith)
          (visible token (b'"' ∷ []) a (omega arith)) (long token b'"')
        ∙ ap
            (λ h.
              if Scan.in_section st
              then record st { out = record (Scan.out st) { token = some h } }
              else st)
            (unquoted token a))

lskip-digits : (s : List ℕ) → All IsDigit s → lskip s ≡ s
unfolding lskip
lskip-digits [] a = refl
lskip-digits (c ∷ s) (h, a) = let solid : is_blank c ≡ false = ground arith in rw solid refl

pub port_step :
    (name : List ℕ) (port : ℕ) (st : Scan)
    → port < 2 ^ 31
    → load_line name st (port_line port) ≡ (
        if Scan.in_section st then record st { out = record (Scan.out st) { port = port } } else st)
unfolding stripped_line lskip field_line set_field cut_at bytes_eq rstrip strip_end
port_step name port st h =
    let digits = print_int-IsDigit port in
    line_kept name (codes "port = ") (print_int port) st (omega arith)
      (All-imp IsDigit (λ c. 33 ≤ c) (print_int port) (λ c k. omega arith) digits)
      (print_int-nonempty port)
    ∙ (ap
          (λ v.
            if Scan.in_section st
            then record st { out = record (Scan.out st) { port = atoi v } }
            else st)
          (lskip-digits (print_int port) digits)
        ∙ ap
            (λ n.
              if Scan.in_section st
              then record st { out = record (Scan.out st) { port = n } }
              else st)
            (atoi-print_int port h))
