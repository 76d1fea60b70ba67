-- ===== src/Deploy/Markers/Printed.antt =====
-- A port mapping that a deploy prints is read back.
use asdl_hub.Prelude.{
  ℕ, ◌≡◌, refl, sym, ap, ◌∙◌, inl, inr, true, false, Option, some, List, [], ◌∷◌, ◌++◌, append-nil,
  arith, ◌==◌, Bool-cases, All,
}
use asdl_hub.Models.{Text}
use asdl_hub.Deploy.Markers.{
  is_digit, all_blank, strip_prefix, span, lines, some_of, port_marker, colon, port_line, last_some,
  parse_port_marker,
}

abbrev AllDigits : Text → Type 0
AllDigits = All (λ c. is_digit c ≡ true)

span_digits :
    (s rest : Text)
    → AllDigits s
    → (span is_digit rest).0 ≡ []
    → (span is_digit rest).1 ≡ rest
    → span is_digit (s ++ rest) ≡ (s, rest)
unfolding span
span_digits [] rest h e f = ground arith
span_digits (c ∷ s) rest h e f = ground (arith, span_digits s rest h.1 e f)

strip_prefix-append : (p s : Text) → strip_prefix p (p ++ s) ≡ some s
unfolding strip_prefix
strip_prefix-append [] s = refl
strip_prefix-append (c ∷ p) s = ground (arith, strip_prefix-append p s)

some_of_digits :
    (c : ℕ) (s rest : Text)
    → AllDigits (c ∷ s)
    → (span is_digit rest).0 ≡ []
    → (span is_digit rest).1 ≡ rest
    → some_of is_digit ((c ∷ s) ++ rest) ≡ some (c ∷ s, rest)
unfolding some_of
some_of_digits c s rest h e f = rw (span_digits (c ∷ s) rest h e f)

-- The line that a deploy prints is read back.
port_line_printed :
    (h c : ℕ) (host container : Text)
    → AllDigits (h ∷ host)
    → AllDigits (c ∷ container)
    → port_line (port_marker ++ ((h ∷ host) ++ (colon ∷ c ∷ container)))
      ≡ some ((h ∷ host) ++ (colon ∷ c ∷ container))
unfolding port_line strip_prefix span all_blank
port_line_printed h c host container dh dc =
    let whole : some_of is_digit (c ∷ container) ≡ some (c ∷ container, []) =
      ap (λ t. some_of is_digit (c ∷ t)) (sym (append-nil container))
      ∙ some_of_digits c container [] dc refl refl in
    rw (some_of_digits h host (colon ∷ c ∷ container) dh refl refl, whole)

abbrev OnLine : Text → Type 0
OnLine = All (λ c. (c == 10) ≡ false)

digits-OnLine_end : (s : Text) → AllDigits s → OnLine s
digits-OnLine_end [] d = tt
digits-OnLine_end (c ∷ s) d = (ground arith, digits-OnLine_end s d.1)

digits-OnLine : (s rest : Text) → AllDigits s → OnLine rest → OnLine (s ++ rest)
digits-OnLine [] rest d h = h
digits-OnLine (c ∷ s) rest d h = (ground arith, digits-OnLine s rest d.1 h)

lines_of_line : (l : Text) → OnLine l → lines l ≡ l ∷ []
unfolding lines
lines_of_line [] h = refl
lines_of_line (c ∷ l) h = rw (h.0, lines_of_line l h.1)

last_cons {ℓ} :
    {B : Type ℓ} (f : Text → Option B) (b : B) (x : Text) (xs : List Text)
    → last_some f xs ≡ some b
    → last_some f (x ∷ xs) ≡ some b
unfolding last_some
last_cons f b x xs h = rw h

-- Whatever stands before it, the last line that fits is the one that is found.
last_some-lines {ℓ} :
    {B : Type ℓ} (f : Text → Option B) (b : B) (before l : Text)
    → OnLine l
    → f l ≡ some b
    → (x : Text) × (xs : List Text) × (lines (before ++ (10 ∷ l)) ≡ x ∷ xs)
      × (last_some f xs ≡ some b)
unfolding lines last_some
last_some-lines f b [] l h e = ([], lines l, refl, rw (lines_of_line l h, e))
last_some-lines f b (c ∷ before) l h e =
    let (x, xs, split, found) = last_some-lines f b before l h e in
    elim (Bool-cases (c == 10)) [
      | inl newline ↦ ([], x ∷ xs, rw (newline, split), rw found)
      | inr same ↦ (c ∷ x, xs, rw (same, split), found)
    ]

-- A port mapping in digits that a deploy prints behind the marker on its last line is the one that is
-- read back, whatever the deploy printed before.
pub parse_port_marker_printed :
    (before : Text) (h c : ℕ) (host container : Text)
    → AllDigits (h ∷ host)
    → AllDigits (c ∷ container)
    → parse_port_marker (before ++ (10 ∷ (port_marker ++ ((h ∷ host) ++ (colon ∷ c ∷ container)))))
      ≡ some ((h ∷ host) ++ (colon ∷ c ∷ container))
unfolding parse_port_marker last_some
parse_port_marker_printed before h c host container dh dc =
    let l = port_marker ++ ((h ∷ host) ++ (colon ∷ c ∷ container)) in
    let (x, xs, split, found) =
      last_some-lines port_line ((h ∷ host) ++ (colon ∷ c ∷ container)) before l
        (
          refl,
          (
            refl,
            (
              refl,
              (
                refl,
                (
                  refl,
                  (
                    refl,
                    (
                      refl,
                      (
                        refl,
                        (
                          refl,
                          (
                            refl,
                            (
                              refl,
                              (
                                refl,
                                (
                                  refl,
                                  (
                                    refl,
                                    (
                                      refl,
                                      (
                                        refl,
                                        (
                                          refl,
                                          (
                                            refl,
                                            digits-OnLine (h ∷ host) (colon ∷ c ∷ container) dh
                                                (refl, digits-OnLine_end (c ∷ container) dc),
                                          ),
                                        ),
                                      ),
                                    ),
                                  ),
                                ),
                              ),
                            ),
                          ),
                        ),
                      ),
                    ),
                  ),
                ),
              ),
            ),
          ),
        )
        (port_line_printed h c host container dh dc) in
    ap (last_some port_line) split ∙ last_cons port_line _ x xs found
