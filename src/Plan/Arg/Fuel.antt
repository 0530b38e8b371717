-- ===== src/Plan/Arg/Fuel.antt =====
-- The fuel of resolveFuncArg: every recursive call is on a shorter text.
use mathlib.Core.List.{reverse, reverse-cons}
use gsql.Common.{
  eqb, ℕ, zero, suc, ◌+◌, ◌-◌, ◌≤◌, ◌<◌, Bool, true, false, ◌&&◌, Option, none, some, List, [], ◌∷◌,
  map, length, length-append, take, drop, All, All-map, ltb, ◌≡◌, refl, sym, ap, ap₂, ◌∙◌, ◌⊎◌, inl,
  inr, arith, if◌then◌else◌, Bool-cases, Option-cases,
}
use gsql.Common.Int.{ℤ, pos}
use gsql.Text.{
  Text, bytes, index_byte, has_suffix, trim_left_func, trim_func, trim_space, is_space,
  contains_any,
}
use gsql.Map.{lookup}
use gsql.Float.{Floats}
use gsql.Plan.Row.{Row, strip_col_alias, value_or}
use gsql.Plan.Builtin.{Registry, lookup_func}
use gsql.Plan.Arg.{
  step_depth, push_front, split_args_from, split_func_args, is_operator, is_zero, find_op_from,
  find_op, inside, is_wrapped, strip_parens, eval_arithmetic_string, eval_operands, eval_at,
  call_scalar, nested_call_at, nested_call, resolve_text, resolve_step, resolve_fuel,
  resolve_func_arg,
}

length-take : (n : ℕ) (s : Text) → (length (take n s) ≤ n) × (length (take n s) ≤ length s)
length-take zero s = (omega arith, omega arith)
length-take (suc n) [] = (omega arith, omega arith)
length-take (suc n) (c ∷ s) = let ih = length-take n s in (omega (arith, ih.0), omega (arith, ih.1))

length-drop : (n : ℕ) (s : Text) → length (drop n s) ≤ length s - n
length-drop zero s = omega arith
length-drop (suc n) [] = omega arith
length-drop (suc n) (c ∷ s) = omega (arith, length-drop n s)

length-reverse : (s : Text) → length (reverse s) ≡ length s
length-reverse [] = refl
length-reverse (c ∷ s) =
    ap length (reverse-cons c s)
    ∙ length-append (reverse s) (c ∷ [])
    ∙ omega (arith, length-reverse s)

length-trim_left : (p : ℕ → Bool) (s : Text) → length (trim_left_func p s) ≤ length s
unfolding trim_left_func
length-trim_left p [] = omega arith
length-trim_left p (c ∷ s) = elim (Bool-cases (p c)) [
  | inl e ↦ rw e (omega (arith, length-trim_left p s))
  | inr e ↦ rw e (omega arith)
]

length-trim_space : (s : Text) → length (trim_space s) ≤ length s
unfolding trim_space trim_func
length-trim_space s =
    let inner = trim_left_func is_space s in
    omega (
      arith,
      length-trim_left is_space s,
      length-reverse inner,
      length-trim_left is_space (reverse inner),
      length-reverse (trim_left_func is_space (reverse inner)),
    )

length-inside : (s : Text) → length (inside s) ≤ length s
unfolding inside
length-inside s = omega (arith, (length-take (length s - 2) (drop 1 s)).1, length-drop 1 s)

length-strip_parens : (f : ℕ) (s : Text) → length (strip_parens f s) ≤ length s
unfolding strip_parens
length-strip_parens zero s = omega arith
length-strip_parens (suc f) s = elim (Bool-cases (is_wrapped s)) [
  | inl e ↦ rw e (
      omega (
        arith,
        length-strip_parens f (trim_space (inside s)),
        length-trim_space (inside s),
        length-inside s,
      ))
  | inr e ↦ rw e (omega arith)
]

-- The pieces of a list of arguments are no longer than the list.
abbrev Pieces : ℕ → List Text → Type 0
Pieces n ps = All (λ p. length p ≤ n) ps

push_front-Pieces : (c n : ℕ) (ps : List Text) → Pieces n ps → Pieces (suc n) (push_front c ps)
push_front-Pieces c n [] h = (omega arith, tt)
push_front-Pieces c n (p ∷ ps) h = (omega (arith, h.0), All-map (λ q le. omega (arith, le)) ps h.1)

split_args_from-Pieces : (depth : ℤ) (s : Text) → Pieces (length s) (split_args_from depth s)
unfolding split_args_from
split_args_from-Pieces depth [] = (omega arith, tt)
split_args_from-Pieces depth (c ∷ s) =
    let ih = split_args_from-Pieces (step_depth c depth) s in
    elim (Bool-cases (eqb c b',' && is_zero depth)) [
      | inl e ↦ rw e (omega arith, All-map (λ q le. omega (arith, le)) _ ih)
      | inr e ↦ rw e (push_front-Pieces c (length s) _ ih)
    ]

nonempty : (c i : ℕ) (s : Text) → index_byte c s ≡ some i → 0 < length s
unfolding index_byte
nonempty c i [] h = absurd cc
nonempty c i (x ∷ s) h = omega arith

map_congr : (f g : Text → Text) (ps : List Text) → All (λ p. f p ≡ g p) ps → map f ps ≡ map g ps
map_congr f g [] h = refl
map_congr f g (p ∷ ps) h = ap₂ (λ q qs. q ∷ qs) h.0 (map_congr f g ps h.1)

-- The position found lies within the text.
find_op_from-bounded :
    (i : ℕ) (depth : ℤ) (s : Text) (found : Option (ℕ × ℕ)) (k c n : ℕ)
    → ((k' c' : ℕ) → found ≡ some (k', c') → k' < n)
    → i + length s ≤ n
    → find_op_from i depth found s ≡ some (k, c)
    → k < n
unfolding find_op_from
find_op_from-bounded i depth [] found k c n old le e = old k c e
find_op_from-bounded i depth (x ∷ s) found k c n old le e =
    find_op_from-bounded (suc i) (step_depth x depth) s _ k c n
      (next (Bool-cases (is_operator x && is_zero depth))) (omega arith) e
  where
    next :
        ((is_operator x && is_zero depth) ≡ true) ⊎ ((is_operator x && is_zero depth) ≡ false)
        → (k' c' : ℕ)
        → (if is_operator x && is_zero depth then some (i, x) else found) ≡ some (k', c')
        → k' < n
    next (inl t) k' c' q =
        let same : some (i, x) ≡ some (k', c') = sym (rw t refl) ∙ q in
        let here : i ≡ k' = cc in omega arith
    next (inr f) k' c' q = old k' c' (sym (rw f refl) ∙ q)

find_op-bounded : (s : Text) (k c : ℕ) → find_op s ≡ some (k, c) → k < length s
unfolding find_op
find_op-bounded s k c e =
    find_op_from-bounded 0 (pos 0) s none k c (length s) (λ k' c' q. absurd cc) (omega arith) e

module _ (fl : Floats) (resolve other : Text → Text) (arg : Text)
    (agree : (t : Text) → length t < length arg → resolve t ≡ other t) where
  -- What a call is given for its arguments.
  abbrev call_args : ℕ → List Text
  call_args idx = split_func_args (trim_space (drop (suc idx) (take (length arg - 1) arg)))

  call_args-agree :
      (idx : ℕ) → 0 < length arg → map resolve (call_args idx) ≡ map other (call_args idx)
  unfolding split_func_args
  call_args-agree idx h =
      let cut = take (length arg - 1) arg in
      let text = trim_space (drop (suc idx) cut) in
      let short : length text < length arg = omega (
        arith,
        length-trim_space (drop (suc idx) cut),
        length-drop (suc idx) cut,
        (length-take (length arg - 1) arg).0,
        h,
      ) in
      map_congr resolve other (call_args idx) (
        All-map (λ p le. agree p (omega (arith, le, short))) (call_args idx)
          (split_args_from-Pieces (pos 0) text))

  nested_call-agree :
      (builtins : Registry)
      → nested_call fl builtins resolve arg ≡ nested_call fl builtins other arg
  unfolding nested_call nested_call_at
  nested_call-agree builtins = elim (Option-cases (index_byte b'(' arg)) [
    | inl e ↦ rw (nested_call, e) refl
    | inr (idx, e) ↦
        rw (nested_call, e)
          (ap
            (λ args.
              if ltb 0 idx && has_suffix arg (bytes ")")
              then call_scalar fl (lookup_func builtins (trim_space (take idx arg))) args
              else none)
            (call_args-agree idx (nonempty b'(' idx arg e)))
  ]

  eval_at-agree :
      (expr : Text) (found : Option (ℕ × ℕ))
      → length expr ≤ length arg
      → ((k c : ℕ) → found ≡ some (k, c) → k < length expr)
      → eval_at fl resolve expr found ≡ eval_at fl other expr found
  unfolding eval_at
  eval_at-agree expr none le within = refl
  eval_at-agree expr (some (k, c)) le within =
      let here = within k c refl in
      ap₂ (eval_operands fl expr c)
        (agree _ (omega (arith, length-trim_space (take k expr), (length-take k expr).0, here, le)))
        (agree _ (
          omega (arith, length-trim_space (drop (suc k) expr), length-drop (suc k) expr, here, le)))

  eval_arithmetic-agree :
      eval_arithmetic_string fl resolve arg ≡ eval_arithmetic_string fl other arg
  unfolding eval_arithmetic_string
  eval_arithmetic-agree =
      let expr = strip_parens (length arg) (trim_space arg) in
      eval_at-agree expr (find_op expr)
        (omega (arith, length-strip_parens (length arg) (trim_space arg), length-trim_space arg))
        (find_op-bounded expr)

  resolve_step-agree :
      (builtins : Registry) (row : Row)
      → resolve_step fl builtins resolve row arg ≡ resolve_step fl builtins other row arg
  unfolding resolve_step resolve_text
  resolve_step-agree builtins row =
      ap (λ t. value_or (value_or t (lookup (strip_col_alias arg) row)) (lookup arg row))
        (ap₂ (λ t o. value_or (if contains_any arg (bytes "+-*/") then t else arg) o)
          eval_arithmetic-agree (nested_call-agree builtins))

-- A function argument is resolved with the same result by any fuel above the length of its text: the
-- recursion through nested calls and operands has ended, so that resolveFuncArg terminates.
pub resolve_fuel-enough :
    (fl : Floats) (builtins : Registry) (row : Row) (f : ℕ) (arg : Text)
    → length arg < f
    → resolve_fuel fl builtins f row arg ≡ resolve_func_arg fl builtins row arg
unfolding resolve_func_arg
resolve_fuel-enough fl builtins row f arg h = same f (suc (length arg)) arg h (omega arith)
  where
    same :
        (m n : ℕ) (t : Text)
        → length t < m
        → length t < n
        → resolve_fuel fl builtins m row t ≡ resolve_fuel fl builtins n row t
    same zero n t p q = absurd (omega arith)
    same (suc m) zero t p q = absurd (omega arith)
    same (suc m) (suc n) t p q =
        resolve_step-agree fl (resolve_fuel fl builtins m row) (resolve_fuel fl builtins n row) t
          (λ u lt. same m n u (omega arith) (omega arith)) builtins row
