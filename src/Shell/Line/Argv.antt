-- ===== src/Shell/Line/Argv.antt =====
-- project1/doit_processes.cpp: what `argvNew` holds after the two functions that fill it.
use cs3013_operating_systems.Prelude.{
  ℕ, zero, suc, ◌+◌, ◌-◌, ◌<◌, ◌≡◌, refl, ap, ◌∙◌, List, [], ◌∷◌, ◌++◌, map, append-cons, none,
  some, length, length-append, length-map, get_elem?, get_elem?-append, set, drop, leb,
  if◌then◌else◌, arith, Option-cases, subst, inl, inr,
}
use cs3013_operating_systems.Shell.Line.{
  is_space, Slot, null, word, argv_size, Setup, no_words, filled, overrun, write, fill_argv,
  file_path, shell_line_setup, copy_arguments, command_line_setup,
}
use cs3013_operating_systems.Shell.Line.Words.{line_of, AllWords, words-line_of, c_str-line_of}
use cs3013_operating_systems.Prelude.Text.{c_str}
use cs3013_operating_systems.Prelude.Strtok.{strtok, words, Tokens, strtok-Tokens}

-- An array of which the front has been filled.
abbrev pub slots : List (List ℕ) → List Slot
slots ws = map (λ w. word w) ws

-- What filling should give: the words and NULL, then what was there; where these do not fit, a write
-- behind the array.
abbrev pub expected : List Slot → List Slot → List Slot → Setup
expected done more back =
    if leb (suc (length more)) (length back)
    then filled (done ++ (more ++ (null ∷ drop (suc (length more)) back)))
    else overrun

expected-step :
    (done : List Slot) (v : Slot) (more : List Slot) (y : Slot) (ys : List Slot)
    → expected (done ++ (v ∷ [])) more ys ≡ expected done (v ∷ more) (y ∷ ys)
expected-step done v more y ys =
    ground (arith, append-cons done v (more ++ (null ∷ drop (suc (length more)) ys)))

set-append :
    (xs : List Slot) (y : Slot) (ys : List Slot) (v : Slot)
    → set (xs ++ (y ∷ ys)) (length xs) v ≡ xs ++ (v ∷ ys)
set-append [] y ys v = refl
set-append (x ∷ xs) y ys v = ap (λ zs. x ∷ zs) (set-append xs y ys v)

-- A write behind the filled front.
write-end :
    (done back : List Slot) (i : ℕ) (v : Slot) (rest : List Slot → Setup)
    → i ≡ length done
    → write (done ++ back) i v rest ≡ elim back [ [] ↦ overrun | y ∷ ys ↦ rest (done ++ (v ∷ ys)) ]
write-end done [] i v rest e = ground (arith, length-append done [])
write-end done (y ∷ ys) i v rest e =
    ground (arith, length-append done (y ∷ ys), set-append done y ys v)

-- What is left to write where the array may have no room for it.
end-expected :
    (done back : List Slot)
    → elim back [ [] ↦ overrun | y ∷ ys ↦ filled (done ++ (null ∷ ys)) ] ≡ expected done [] back
end-expected done [] = refl
end-expected done (y ∷ ys) = ground arith

next-expected :
    (done : List Slot) (v : Slot) (more back : List Slot) (rest : List Slot → Setup)
    → ((ys : List Slot) → rest (done ++ (v ∷ ys)) ≡ expected (done ++ (v ∷ [])) more ys)
    → elim back [ [] ↦ overrun | y ∷ ys ↦ rest (done ++ (v ∷ ys)) ] ≡ expected done (v ∷ more) back
next-expected done v more [] rest k = ground arith
next-expected done v more (y ∷ ys) rest k = k ys ∙ expected-step done v more y ys

fill_argv-none :
    (fuel i : ℕ) (rest : List ℕ) (argv : List Slot)
    → strtok is_space rest ≡ none
    → fill_argv (suc fuel) i rest argv ≡ write argv i null (λ a. filled a)
unfolding fill_argv
fill_argv-none fuel i rest argv e = rw (e, fill_argv) refl

fill_argv-some :
    (fuel i : ℕ) (rest part more : List ℕ) (argv : List Slot)
    → strtok is_space rest ≡ some (part, more)
    → fill_argv (suc fuel) i rest argv
      ≡ write argv i (word part) (λ a. fill_argv fuel (i + 1) more a)
unfolding fill_argv
fill_argv-some fuel i rest part more argv e = rw (e, fill_argv) refl

fill_argv-words :
    (fuel i : ℕ) (rest : List ℕ) (done back : List Slot)
    → length rest < fuel
    → i ≡ length done
    → fill_argv fuel i rest (done ++ back) ≡ expected done (slots (words is_space rest)) back
fill_argv-words zero i rest done back h e = absurd (omega arith)
fill_argv-words (suc fuel) i rest done back h e = elim (Option-cases (strtok is_space rest)) [
  | inl n ↦
      let t : words is_space rest ≡ [] =
        subst (Tokens is_space rest) n (strtok-Tokens is_space rest) in
      fill_argv-none fuel i rest (done ++ back) n
      ∙ write-end done back i null (λ a. filled a) e
      ∙ rw t (end-expected done back)
  | inr ((part, more), n) ↦
      let (t, l) = subst (Tokens is_space rest) n (strtok-Tokens is_space rest) in
      fill_argv-some fuel i rest part more (done ++ back) n
      ∙ write-end done back i (word part) (λ a. fill_argv fuel (i + 1) more a) e
      ∙ rw t (
          next-expected done (word part) (slots (words is_space more)) back
            (λ a. fill_argv fuel (i + 1) more a)
            (λ ys. rw (append-cons done (word part) ys) (
              fill_argv-words fuel (i + 1) more (done ++ (word part ∷ [])) ys (omega arith)
                (omega (arith, length-append done (word part ∷ []))))))
]

-- What the array should hold for a line with these words.
abbrev pub line_argv : List Slot → List (List ℕ) → Setup
line_argv argv [] = no_words
line_argv argv (w ∷ ws) = expected [] (word (file_path w) ∷ slots ws) argv

shell_line_setup-none :
    (argv : List Slot) (line : List ℕ)
    → strtok is_space (c_str line) ≡ none
    → shell_line_setup argv line ≡ no_words
unfolding shell_line_setup
shell_line_setup-none argv line e = rw (e, shell_line_setup) refl

shell_line_setup-some :
    (y : Slot) (ys : List Slot) (line part more : List ℕ)
    → strtok is_space (c_str line) ≡ some (part, more)
    → shell_line_setup (y ∷ ys) line
      ≡ fill_argv (suc (length more)) 1 more (word (file_path part) ∷ ys)
unfolding shell_line_setup
shell_line_setup-some y ys line part more e = rw (e, shell_line_setup) (ground arith)

copy_arguments-end :
    (i : ℕ) (args : List (List ℕ)) (argv : List Slot) (rest : List Slot → Setup)
    → copy_arguments 0 i args argv rest ≡ rest argv
unfolding copy_arguments
copy_arguments-end i args argv rest = refl

copy_arguments-some :
    (left i : ℕ) (args : List (List ℕ)) (w : List ℕ) (argv : List Slot) (rest : List Slot → Setup)
    → get_elem? args (i + 1) ≡ some w
    → copy_arguments (suc left) i args argv rest
      ≡ write argv i (word w) (λ v. copy_arguments left (i + 1) args v rest)
unfolding copy_arguments
copy_arguments-some left i args w argv rest e = rw (e, copy_arguments) refl

-- For every line, the array is left alone where the line has no word; it then holds the path of the
-- first word, the other words in their order and NULL behind them, where these fit; and where they
-- do not, which is from five words on for the shell's array, a write goes behind its end.
pub shell_line_setup-words :
    (argv : List Slot) (line : List ℕ)
    → 0 < length argv
    → shell_line_setup argv line ≡ line_argv argv (words is_space (c_str line))
shell_line_setup-words [] line h = absurd (omega arith)
shell_line_setup-words (y ∷ ys) line h = elim (Option-cases (strtok is_space (c_str line))) [
  | inl n ↦
      let t : words is_space (c_str line) ≡ [] =
        subst (Tokens is_space (c_str line)) n (strtok-Tokens is_space (c_str line)) in
      shell_line_setup-none (y ∷ ys) line n ∙ rw t refl
  | inr ((part, more), n) ↦
      let (t, l) = subst (Tokens is_space (c_str line)) n (strtok-Tokens is_space (c_str line)) in
      shell_line_setup-some y ys line part more n
      ∙ fill_argv-words (suc (length more)) 1 more (word (file_path part) ∷ []) ys (omega arith)
          refl
      ∙ expected-step [] (word (file_path part)) (slots (words is_space more)) y ys
      ∙ rw t refl
]

-- The shell's array, filled from a line of words with any number of spaces before each: their path
-- and arguments are the words again. From five words on there is no room.
pub shell_line_setup-line_of :
    (argv : List Slot) (n : ℕ) (w : List ℕ) (gs : List (ℕ × List ℕ))
    → length argv ≡ argv_size
    → AllWords ((n, w) ∷ gs)
    → shell_line_setup argv (line_of ((n, w) ∷ gs)) ≡ (
        if leb 4 (length gs)
        then overrun
        else filled (
            word (file_path w)
            ∷ (slots (map (λ g. g.1) gs) ++ (null ∷ drop (suc (suc (length gs))) argv))))
shell_line_setup-line_of argv n w gs e h =
    let ws = words-line_of ((n, w) ∷ gs) h in
    shell_line_setup-words argv (line_of ((n, w) ∷ gs)) (omega arith)
    ∙ rw (c_str-line_of ((n, w) ∷ gs) h, ws)
        (ground (
          arith,
          length-map (map (λ (g : ℕ × List ℕ). g.1) gs) (λ x. word x),
          length-map gs (λ (g : ℕ × List ℕ). g.1),
        ))

copy_arguments-expected :
    (i n : ℕ) (front ws : List (List ℕ)) (done back : List Slot)
    → length front ≡ i + 1
    → i ≡ length done
    → n ≡ i + length ws
    → copy_arguments
        (length ws)
        i
        (front ++ ws)
        (done ++ back)
        (λ u. write u n null (λ t. filled t))
      ≡ expected done (slots ws) back
copy_arguments-expected i n front [] done back f e l =
    copy_arguments-end i (front ++ []) (done ++ back) (λ u. write u n null (λ t. filled t))
    ∙ write-end done back n null (λ t. filled t) (omega arith)
    ∙ end-expected done back
copy_arguments-expected i n front (w ∷ ws) done back f e l =
    copy_arguments-some (length ws) i (front ++ (w ∷ ws)) w (done ++ back)
      (λ u. write u n null (λ t. filled t)) (get_elem?-append front w ws (i + 1) (omega arith))
    ∙ write-end done back i (word w)
        (λ v.
          copy_arguments (length ws) (i + 1) (front ++ (w ∷ ws)) v
            (λ u. write u n null (λ t. filled t)))
        e
    ∙ next-expected done (word w) (slots ws) back
        (λ v.
          copy_arguments (length ws) (i + 1) (front ++ (w ∷ ws)) v
            (λ u. write u n null (λ t. filled t)))
        (λ ys.
          rw (append-cons done (word w) ys, append-cons front w ws)
            (copy_arguments-expected (i + 1) n (front ++ (w ∷ [])) ws (done ++ (word w ∷ [])) ys
              (omega (arith, length-append front (w ∷ [])))
              (omega (arith, length-append done (word w ∷ []))) (omega arith)))

-- What `doit` puts into the array for its arguments: these without its own name, and NULL behind
-- them, where they fit; from five on a write goes behind the end of the array.
pub command_line_setup-arguments :
    (argv : List Slot) (name w : List ℕ) (ws : List (List ℕ))
    → 0 < length argv
    → command_line_setup argv (name ∷ w ∷ ws) ≡ expected [] (slots (w ∷ ws)) argv
unfolding command_line_setup
command_line_setup-arguments [] name w ws h = absurd (omega arith)
command_line_setup-arguments (y ∷ ys) name w ws h =
    let two : suc (suc (length ws)) - 2 ≡ length ws = omega arith in
    let one : suc (suc (length ws)) - 1 ≡ suc (length ws) = omega arith in
    rw (two, one)
      (ground (
        arith,
        copy_arguments-expected 1 (suc (length ws)) (name ∷ w ∷ []) ws (word w ∷ []) ys refl refl
            (omega arith),
        expected-step [] (word w) (slots ws) y ys,
      ))
