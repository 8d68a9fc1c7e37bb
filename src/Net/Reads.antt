-- ===== src/Net/Reads.antt =====
-- Termination of `read_full` of components/core/src/net.c, and the bytes it reads.
use espshell.Prelude.{
  ℕ, zero, suc, ◌+◌, ◌-◌, ◌≤◌, ◌<◌, ◌≡◌, refl, ap, ap₂, sym, ◌∙◌, List, [], ◌∷◌, ◌++◌, append_assoc,
  Option, none, some, length, length-append, length-take, take, drop, take-append-drop, get_or,
  arith,
}
use espshell.Net.{Event, push, recv, Read, prepend, read_loop, read_full}

-- The bytes that come, and that no call fails.
abbrev pub flat : List Event → List ℕ
flat [] = []
flat (Event.bytes b bs ∷ es) = (b ∷ bs) ++ flat es
flat (Event.interrupted ∷ es) = flat es
flat (Event.failed ∷ es) = flat es

abbrev pub Healthy : List Event → Type 0
Healthy [] = Unit
Healthy (Event.bytes b bs ∷ es) = Healthy es
Healthy (Event.interrupted ∷ es) = Healthy es
Healthy (Event.failed ∷ es) = ⊥

pub flat-push : (bs : List ℕ) (es : List Event) → flat (push bs es) ≡ bs ++ flat es
flat-push [] es = refl
flat-push (b ∷ bs) es = refl

length-push : (bs : List ℕ) (es : List Event) → length (push bs es) ≤ suc (length es)
length-push [] es = omega arith
length-push (b ∷ bs) es = omega arith

pub push-Healthy : (bs : List ℕ) (es : List Event) → Healthy es → Healthy (push bs es)
push-Healthy [] es h = h
push-Healthy (b ∷ bs) es h = h

-- A larger read, of which one `recv` has taken a part.
prepend_returns :
    (bs : List ℕ) (r : Option (Read × List Event)) (res : Read × List Event)
    → r ≡ some res
    → (res' : Read × List Event) × (prepend bs r ≡ some res')
prepend_returns bs none res e = absurd (cc e)
prepend_returns bs (some (Read.full cs, es)) res e = ((Read.full (bs ++ cs), es), refl)
prepend_returns bs (some (Read.eof, es)) res e = ((Read.eof, es), refl)
prepend_returns bs (some (Read.err, es)) res e = ((Read.err, es), refl)

read_loop_returns :
    (fuel n : ℕ) (es : List Event)
    → n + length es < fuel
    → (res : Read × List Event) × (read_loop fuel n es ≡ some res)
unfolding read_loop recv
read_loop_returns zero n es h = absurd (omega arith)
read_loop_returns (suc fuel) zero es h = ((Read.full [], es), refl)
read_loop_returns (suc fuel) (suc n) [] h = ((Read.eof, []), refl)
read_loop_returns (suc fuel) (suc n) (Event.bytes b bs ∷ es) h =
    let (res, e) =
      read_loop_returns fuel (suc n - length (take (suc n) (b ∷ bs)))
        (push (drop (suc n) (b ∷ bs)) es)
        (omega (arith, length-take (suc n) (b ∷ bs), length-push (drop (suc n) (b ∷ bs)) es)) in
    prepend_returns (take (suc n) (b ∷ bs)) _ res e
read_loop_returns (suc fuel) (suc n) (Event.interrupted ∷ es) h =
    read_loop_returns fuel (suc n) es (omega arith)
read_loop_returns (suc fuel) (suc n) (Event.failed ∷ es) h = ((Read.err, es), refl)

-- `read_full` returns on every sequence of what `recv` meets: its rounds are enough.
pub read_full_returns :
    (es : List Event) (n : ℕ) → (res : Read × List Event) × (read_full es n ≡ some res)
unfolding read_full
read_full_returns es n = read_loop_returns (suc (n + length es)) n es (omega arith)

split_prefix :
    (xs zs ys ws : List ℕ)
    → xs ++ ys ≡ zs ++ ws
    → length xs ≤ length zs
    → (zs' : List ℕ) × (zs ≡ xs ++ zs') × (ys ≡ zs' ++ ws)
split_prefix [] zs ys ws e h = (zs, refl, e)
split_prefix (x ∷ xs) [] ys ws e h = absurd (omega arith)
split_prefix (x ∷ xs) (z ∷ zs) ys ws e h =
    let (zs', front, back) = split_prefix xs zs ys ws (ap (drop 1) e) (omega arith) in
    (zs', ap₂ (λ a l. a ∷ l) (sym (ap (λ l. get_or l 0 x) e)) front, back)

read_loop_bytes :
    (fuel n : ℕ) (es : List Event) (want rest : List ℕ)
    → n + length es < fuel
    → Healthy es
    → flat es ≡ want ++ rest
    → length want ≡ n
    → (es' : List Event) × (read_loop fuel n es ≡ some (Read.full want, es'))
      × (flat es' ≡ rest)
      × Healthy es'
unfolding read_loop recv
read_loop_bytes zero n es want rest h ok e w = absurd (omega arith)
read_loop_bytes (suc fuel) zero es [] rest h ok e w = (es, refl, e, ok)
read_loop_bytes (suc fuel) zero es (x ∷ want) rest h ok e w = absurd (omega arith)
read_loop_bytes (suc fuel) (suc n) [] want rest h ok e w =
    absurd (omega (arith, ap length e, length-append want rest))
read_loop_bytes (suc fuel) (suc n) (Event.bytes b bs ∷ es) want rest h ok e w =
    let chunk = b ∷ bs in
    let taken = take (suc n) chunk in
    let left = drop (suc n) chunk in
    let same : taken ++ (left ++ flat es) ≡ want ++ rest =
      sym (append_assoc taken left (flat es))
      ∙ (ap (λ c. c ++ flat es) (take-append-drop (suc n) chunk) ∙ e) in
    let (more, front, back) =
      split_prefix taken want (left ++ flat es) rest same
        (omega (arith, length-take (suc n) chunk)) in
    let (es', read, others, fine) =
      read_loop_bytes fuel (suc n - length taken) (push left es) more rest
        (omega (arith, length-take (suc n) chunk, length-push left es)) (push-Healthy left es ok)
        (flat-push left es ∙ back) (omega (arith, ap length front, length-append taken more)) in
    (es', ap (prepend taken) read ∙ ap (λ c. some (Read.full c, es')) (sym front), others, fine)
read_loop_bytes (suc fuel) (suc n) (Event.interrupted ∷ es) want rest h ok e w =
    read_loop_bytes fuel (suc n) es want rest (omega arith) ok e w
read_loop_bytes (suc fuel) (suc n) (Event.failed ∷ es) want rest h ok e w = absurd ok

-- On a socket without failures whose bytes start with `want`, `read_full` reads just `want`, however the
-- bytes are cut up and the calls are interrupted, and leaves the bytes behind it.
pub read_full_bytes :
    (es : List Event) (want rest : List ℕ)
    → Healthy es
    → flat es ≡ want ++ rest
    → (es' : List Event) × (read_full es (length want) ≡ some (Read.full want, es'))
      × (flat es' ≡ rest)
      × Healthy es'
unfolding read_full
read_full_bytes es want rest ok e =
    read_loop_bytes (suc (length want + length es)) (length want) es want rest (omega arith) ok e
      refl
