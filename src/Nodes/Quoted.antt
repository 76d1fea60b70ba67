-- ===== src/Nodes/Quoted.antt =====
-- shellQuote of internal/services/deploy_command.go against the way in which a POSIX shell reads a word.
use asdl_hub.Prelude.{
  ℕ, ◌≡◌, refl, sym, ap, ◌∙◌, inl, inr, Bool, true, false, ◌||◌, Option, none, some, [], ◌∷◌, ◌++◌,
  append_assoc, append-nil, ◌==◌, if◌then◌else◌, ==_iff, Bool-cases,
}
use asdl_hub.Models.{Text}
use asdl_hub.Nodes.Containers.{quote, backslash, escape_quotes, shell_quote}

-- Where in a word the shell is: outside quotes, between single quotes, or behind a backslash.
pub data Quoting : Type 0 where
  bare quoted escaped : Quoting

-- The characters that end a word outside quotes: blanks and operators.
abbrev pub ends_word : ℕ → Bool
ends_word c =
    c == 9
    || c == 10
    || c == 32
    || c == 38
    || c == 40
    || c == 41
    || c == 59
    || c == 60
    || c == 62
    || c == 124

abbrev pub next_state : Quoting → ℕ → Quoting
next_state bare c = if c == quote then quoted else if c == backslash then escaped else bare
next_state quoted c = if c == quote then bare else quoted
next_state escaped c = bare

-- What a character adds to the word.
abbrev pub taken : Quoting → ℕ → Text
taken bare c = if c == quote || c == backslash then [] else c ∷ []
taken quoted c = if c == quote then [] else c ∷ []
taken escaped c = c ∷ []

abbrev pub at_end : Quoting → ℕ → Bool
at_end bare c = ends_word c
at_end _ c = false

abbrev pub put_before : Text → Option (Text × Text) → Option (Text × Text)
put_before a none = none
put_before a (some (w, rest)) = some (a ++ w, rest)

abbrev pub word_done : Quoting → Option (Text × Text)
word_done bare = some ([], [])
word_done _ = none

-- The word at the start of a command, its quotes removed, and what follows; none where a quote stays open.
-- What a shell expands outside single quotes ($, backquotes, double quotes) is taken as it stands.
unfoldable pub read_word : Quoting → Text → Option (Text × Text)
read_word q [] = word_done q
read_word q (c ∷ s) =
    let rest = read_word (next_state q c) s in
    if at_end q c then some ([], c ∷ s) else put_before (taken q c) rest

-- Nothing, or a character that ends the word.
abbrev pub EndsWord : Text → Type 0
EndsWord [] = Unit
EndsWord (c ∷ s) = ends_word c ≡ true

put_before-append :
    (a b : Text) (o : Option (Text × Text)) → put_before a (put_before b o) ≡ put_before (a ++ b) o
put_before-append a b none = refl
put_before-append a b (some (w, rest)) = ap (λ t. some (t, rest)) (sym (append_assoc a b w))

put_before-nil : (o : Option (Text × Text)) → put_before [] o ≡ o
put_before-nil none = refl
put_before-nil (some (w, rest)) = refl

read_word-escape_quotes :
    (s rest : Text)
    → read_word quoted (escape_quotes s ++ quote ∷ rest) ≡ put_before s (read_word bare rest)
unfolding read_word escape_quotes
read_word-escape_quotes [] rest = refl
read_word-escape_quotes (c ∷ s) rest = elim (Bool-cases (c == quote)) [
  | inl hit ↦ rw hit (
      put_before-nil _
      ∙ put_before-nil _
      ∙ ap (put_before (quote ∷ [])) (put_before-nil _ ∙ read_word-escape_quotes s rest)
      ∙ put_before-append (quote ∷ []) s (read_word bare rest)
      ∙ ap (λ d. put_before (d ∷ s) (read_word bare rest)) (sym ((==_iff c quote).0 hit)))
  | inr miss ↦
      rw (miss, miss)
        (ap (put_before (c ∷ [])) (read_word-escape_quotes s rest)
          ∙ put_before-append (c ∷ []) s (read_word bare rest))
]

read_word-end : (rest : Text) → EndsWord rest → read_word bare rest ≡ some ([], rest)
unfolding read_word
read_word-end [] h = refl
read_word-end (c ∷ s) h = rw h refl

-- Whatever a text contains, the shell reads it back, as one word, where it stands quoted in a command before
-- the end or a character that ends a word.
pub shell_quote_read_back :
    (s rest : Text) → EndsWord rest → read_word bare (shell_quote s ++ rest) ≡ some (s, rest)
unfolding shell_quote read_word
shell_quote_read_back s rest h =
    put_before-nil _
    ∙ ap (λ t. read_word quoted t) (append_assoc (escape_quotes s) (quote ∷ []) rest)
    ∙ read_word-escape_quotes s rest
    ∙ ap (put_before s) (read_word-end rest h)
    ∙ ap (λ t. some (t, rest)) (append-nil s)
