-- ===== src/Command/Newlines.antt =====
-- cmd/wasitter-build/main.go: a `dockerMountField` with the newlines of its value folded.
use mathlib.Core.List.{append_assoc, append-nil}
use wasitter.Command.Csv.{fold_newlines, drop_return, EndsField}
use wasitter.Command.Mount.{needs_quotes, double_quotes, docker_mount_field, mount_value}
use wasitter.Prelude.{
  ℕ, ◌≡◌, refl, sym, ap, ◌∙◌, arith, Bool, true, false, ◌&&◌, [], ◌∷◌, ◌++◌, ◌==◌, if◌then◌else◌,
  Bytes, codes, Bool-cases, inl, inr, All,
}

-- No LF stands first.
abbrev Apart : Bytes → Type 0
Apart [] = Unit
Apart (d ∷ ds) = (d == b'\n') ≡ false

fold_newlines-append :
    (front rest : Bytes)
    → Apart rest
    → fold_newlines (front ++ rest) ≡ fold_newlines front ++ fold_newlines rest
unfolding fold_newlines
fold_newlines-append [] rest h = refl
fold_newlines-append (c ∷ []) [] h = refl
fold_newlines-append (c ∷ []) (d ∷ ds) h = ground arith
fold_newlines-append (c ∷ e ∷ front) rest h =
    ground (arith, fold_newlines-append (e ∷ front) rest h)

fold_newlines-cons :
    (c : ℕ) (rest : Bytes)
    → (c == b'\r') ≡ false
    → fold_newlines (c ∷ rest) ≡ c ∷ fold_newlines rest
unfolding fold_newlines
fold_newlines-cons c [] h = refl
fold_newlines-cons c (d ∷ ds) h = ground arith

fold_newlines-needs_quotes : (text : Bytes) → needs_quotes (fold_newlines text) ≡ needs_quotes text
unfolding fold_newlines needs_quotes
fold_newlines-needs_quotes [] = refl
fold_newlines-needs_quotes (c ∷ []) = refl
fold_newlines-needs_quotes (c ∷ d ∷ cs) = ground (arith, fold_newlines-needs_quotes (d ∷ cs))

fold_newlines-dropped :
    (c d : ℕ) (cs : Bytes)
    → (c == b'\r' && d == b'\n') ≡ true
    → fold_newlines (c ∷ double_quotes (d ∷ cs)) ≡ fold_newlines (double_quotes (d ∷ cs))
unfolding fold_newlines double_quotes
fold_newlines-dropped c d cs h = elim (Bool-cases (d == b'"')) [
  | inl e ↦ ground arith
  | inr e ↦ ground arith
]

fold_newlines-kept :
    (c d : ℕ) (cs : Bytes)
    → (c == b'\r' && d == b'\n') ≡ false
    → fold_newlines (c ∷ double_quotes (d ∷ cs)) ≡ c ∷ fold_newlines (double_quotes (d ∷ cs))
unfolding fold_newlines double_quotes
fold_newlines-kept c d cs h = elim (Bool-cases (d == b'"')) [
  | inl e ↦ ground arith
  | inr e ↦ ground arith
]

fold_newlines-double_quotes :
    (text : Bytes) → fold_newlines (double_quotes text) ≡ double_quotes (fold_newlines text)
unfolding fold_newlines double_quotes
fold_newlines-double_quotes [] = refl
fold_newlines-double_quotes (c ∷ []) = ground arith
fold_newlines-double_quotes (c ∷ d ∷ cs) =
    let rest = fold_newlines-double_quotes (d ∷ cs) in
    let behind = double_quotes (d ∷ cs) in
    elim (Bool-cases (c == b'"')) [
      | inl e ↦
          let quote : (c == b'\r') ≡ false = ground arith in
          rw (e, quote)
            (fold_newlines-cons b'"' (b'"' ∷ behind) refl
              ∙ ap (λ (xs : Bytes). b'"' ∷ xs) (fold_newlines-cons b'"' behind refl)
              ∙ ap (λ (xs : Bytes). b'"' ∷ b'"' ∷ xs) rest
              ∙ rw e refl)
      | inr e ↦ elim (Bool-cases (c == b'\r' && d == b'\n')) [
        | inl f ↦ rw (e, f) (fold_newlines-dropped c d cs f ∙ rest)
        | inr f ↦
            rw (e, f) (fold_newlines-kept c d cs f ∙ ap (λ (xs : Bytes). c ∷ xs) rest ∙ rw e refl)
      ]
    ]

Apart-EndsField : (rest : Bytes) → EndsField rest → Apart rest
Apart-EndsField [] h = tt
Apart-EndsField (c ∷ rest) h = rw h refl

fold_newlines-docker_mount_field :
    (key value rest : Bytes)
    → fold_newlines (key ++ b'=' ∷ value) ≡ key ++ b'=' ∷ fold_newlines value
    → EndsField rest
    → fold_newlines (docker_mount_field key value ++ rest)
      ≡ docker_mount_field key (fold_newlines value) ++ fold_newlines rest
unfolding docker_mount_field fold_newlines
fold_newlines-docker_mount_field key value rest h k =
    let field = key ++ b'=' ∷ value in
    let same : needs_quotes (key ++ b'=' ∷ fold_newlines value) ≡ needs_quotes field =
      ap needs_quotes (sym h) ∙ fold_newlines-needs_quotes field in
    let apart = Apart-EndsField rest k in
    elim (Bool-cases (needs_quotes field)) [
      | inl e ↦
          rw (same, e)
            (fold_newlines-append (b'"' ∷ (double_quotes field ++ b'"' ∷ [])) rest apart
              ∙ ap (λ (xs : Bytes). xs ++ fold_newlines rest)
                  (fold_newlines-cons b'"' (double_quotes field ++ b'"' ∷ []) refl
                    ∙ ap (λ (xs : Bytes). b'"' ∷ xs)
                        (fold_newlines-append (double_quotes field) (b'"' ∷ []) refl
                          ∙ ap (λ (xs : Bytes). xs ++ b'"' ∷ [])
                              (fold_newlines-double_quotes field ∙ ap double_quotes h))))
      | inr e ↦
          rw (same, e)
            (fold_newlines-append field rest apart
              ∙ ap (λ (xs : Bytes). xs ++ fold_newlines rest) h)
    ]

-- Bytes in front among which there is no CR.
fold_newlines-front :
    (front rest : Bytes)
    → All (λ (c : ℕ). (c == b'\r') ≡ false) front
    → fold_newlines (front ++ rest) ≡ front ++ fold_newlines rest
fold_newlines-front [] rest h = refl
fold_newlines-front (c ∷ front) rest h =
    fold_newlines-cons c (front ++ rest) h.0
    ∙ ap (λ (xs : Bytes). c ∷ xs) (fold_newlines-front front rest h.1)

fold_newlines-src :
    (source : Bytes)
    → fold_newlines (codes "src" ++ b'=' ∷ source) ≡ codes "src" ++ b'=' ∷ fold_newlines source
fold_newlines-src source =
    fold_newlines-front (codes "src=") source (refl, (refl, (refl, (refl, tt))))

fold_newlines-dst :
    (destination : Bytes)
    → fold_newlines (codes "dst" ++ b'=' ∷ destination)
      ≡ codes "dst" ++ b'=' ∷ fold_newlines destination
fold_newlines-dst destination =
    fold_newlines-front (codes "dst=") destination (refl, (refl, (refl, (refl, tt))))

fold_newlines-last :
    (destination : Bytes) (read_only : Bool)
    → fold_newlines (
        docker_mount_field (codes "dst") destination
        ++ (if read_only then codes ",readonly" else []))
      ≡ docker_mount_field (codes "dst") (fold_newlines destination)
        ++ (if read_only then codes ",readonly" else [])
unfolding fold_newlines
fold_newlines-last destination true =
    fold_newlines-docker_mount_field (codes "dst") destination (codes ",readonly")
      (fold_newlines-dst destination) refl
fold_newlines-last destination false =
    fold_newlines-docker_mount_field (codes "dst") destination [] (fold_newlines-dst destination) tt

-- The value of the argument, folded, is that of the folded paths.
pub fold_newlines-mount_value :
    (source destination : Bytes) (read_only : Bool)
    → fold_newlines (mount_value source destination read_only)
      ≡ mount_value (fold_newlines source) (fold_newlines destination) read_only
unfolding mount_value
fold_newlines-mount_value source destination read_only =
    let last =
      docker_mount_field (codes "dst") destination
      ++ (if read_only then codes ",readonly" else []) in
    fold_newlines-front (codes "type=bind,")
      (docker_mount_field (codes "src") source ++ (b',' ∷ last))
      (refl, (refl, (refl, (refl, (refl, (refl, (refl, (refl, (refl, (refl, tt))))))))))
    ∙ ap (λ (xs : Bytes). codes "type=bind," ++ xs)
        (fold_newlines-docker_mount_field (codes "src") source (b',' ∷ last)
            (fold_newlines-src source) refl
          ∙ ap (λ (xs : Bytes). docker_mount_field (codes "src") (fold_newlines source) ++ xs)
              (fold_newlines-cons b',' last refl
                ∙ ap (λ (xs : Bytes). b',' ∷ xs) (fold_newlines-last destination read_only)))

drop_return-append :
    (front : Bytes) (d : ℕ) (rest : Bytes)
    → drop_return (front ++ d ∷ rest) ≡ front ++ drop_return (d ∷ rest)
unfolding drop_return
drop_return-append [] d rest = refl
drop_return-append (c ∷ []) d rest = refl
drop_return-append (c ∷ e ∷ front) d rest =
    ap (λ (xs : Bytes). c ∷ xs) (drop_return-append (e ∷ front) d rest)

drop_return-plain : (text : Bytes) → needs_quotes text ≡ false → drop_return text ≡ text
unfolding drop_return needs_quotes
drop_return-plain [] h = refl
drop_return-plain (c ∷ []) h = ground arith
drop_return-plain (c ∷ d ∷ cs) h =
    ap (λ (xs : Bytes). c ∷ xs) (drop_return-plain (d ∷ cs) (ground arith))

drop_return-dst :
    (front destination : Bytes)
    → drop_return (front ++ docker_mount_field (codes "dst") destination)
      ≡ front ++ docker_mount_field (codes "dst") destination
unfolding docker_mount_field drop_return
drop_return-dst front destination =
    let field = codes "dst" ++ b'=' ∷ destination in
    let quoted = b'"' ∷ double_quotes field in
    elim (Bool-cases (needs_quotes field)) [
      | inl e ↦
          let split : front ++ (quoted ++ b'"' ∷ []) ≡ (front ++ quoted) ++ b'"' ∷ [] =
            sym (append_assoc front quoted (b'"' ∷ [])) in
          rw e (ap drop_return split ∙ drop_return-append (front ++ quoted) b'"' [] ∙ sym split)
      | inr e ↦ rw e (
          drop_return-append front b'd' (codes "st" ++ b'=' ∷ destination)
          ∙ ap (λ (xs : Bytes). front ++ xs) (drop_return-plain field e))
    ]

-- The value, up to its last field.
mount_value-front :
    (source rest : Bytes)
    → codes "type=bind," ++ (docker_mount_field (codes "src") source ++ (b',' ∷ rest))
      ≡ (codes "type=bind," ++ (docker_mount_field (codes "src") source ++ b',' ∷ [])) ++ rest
mount_value-front source rest =
    ap (λ (xs : Bytes). codes "type=bind," ++ xs)
      (sym (append_assoc (docker_mount_field (codes "src") source) (b',' ∷ []) rest))

-- No CR stands at the end of the value.
pub drop_return-mount_value :
    (source destination : Bytes) (read_only : Bool)
    → drop_return (mount_value source destination read_only)
      ≡ mount_value source destination read_only
unfolding mount_value drop_return
drop_return-mount_value source destination true =
    let front = codes "type=bind," ++ (docker_mount_field (codes "src") source ++ b',' ∷ []) in
    let dst = docker_mount_field (codes "dst") destination in
    let split =
      mount_value-front source (dst ++ codes ",readonly")
      ∙ sym (append_assoc front dst (codes ",readonly")) in
    ap drop_return split ∙ drop_return-append (front ++ dst) b',' (codes "readonly") ∙ sym split
drop_return-mount_value source destination false =
    let front = codes "type=bind," ++ (docker_mount_field (codes "src") source ++ b',' ∷ []) in
    let dst = docker_mount_field (codes "dst") destination in
    let split =
      mount_value-front source (dst ++ []) ∙ ap (λ (xs : Bytes). front ++ xs) (append-nil dst) in
    ap drop_return split ∙ drop_return-dst front destination ∙ sym split
