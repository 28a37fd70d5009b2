-- ===== src/Gpg/Tests.antt =====
-- Examples of internal/gpgsign/commit.go.
use secrets_dispatcher.Prelude.{
  ℕ, ◌≡◌, refl, List, [], ◌∷◌, ◌++◌, All, all, not, eqb, ltb, length, true,
}
use secrets_dispatcher.Text.{codes}
use secrets_dispatcher.Gpg.Payload.{
  commit, parse_signed_payload, drop_cr, join, trim_newlines, max_line,
}
use secrets_dispatcher.Gpg.Payload.Body.{body_changes_message_only}
use secrets_dispatcher.Gpg.Payload.RoundTrip.{IsLine, print_lines, commit_lines, parse-commit}

body_changes_message_only_example :
    record (parse_signed_payload (codes "tree 1\nauthor a" ++ b'\n' ∷ b'\n' ∷ codes "author b")) {
      message = [];
    }
    ≡ record (parse_signed_payload (codes "tree 1\nauthor a" ++ b'\n' ∷ b'\n' ∷ codes "m")) {
      message = [];
    }
body_changes_message_only_example =
    body_changes_message_only (codes "tree 1\nauthor a") (codes "author b") (codes "m") []

abbrev a_commit : List (List ℕ)
a_commit = commit_lines (codes "1") (codes "2") (codes "a") (codes "c")

abbrev body : List (List ℕ)
body = codes "m" ∷ [] ∷ []

-- A line of which each test computes.
line :
    (l : List ℕ)
    → all (λ c. not (eqb c b'\n')) l ≡ true
    → drop_cr l ≡ l
    → ltb (length l) max_line ≡ true
    → IsLine l
line l a b c = record { no_newline = a; no_cr = b; fits = c }

body_IsLine : All IsLine ([] ∷ body)
unfolding drop_cr
body_IsLine =
    (line [] refl refl refl, (line (codes "m") refl refl refl, (line [] refl refl refl, tt)))

commit_IsLine : All IsLine (a_commit ++ [] ∷ body)
unfolding drop_cr
commit_IsLine = (
  line (codes "tree 1") refl refl refl,
  (
    line (codes "parent 2") refl refl refl,
    (
      line (codes "author a") refl refl refl,
      (line (codes "committer c") refl refl refl, body_IsLine),
    ),
  ),
)

parse-commit_example : parse_signed_payload (print_lines (a_commit ++ [] ∷ body)) ≡ record {
  kind = commit;
  signer = codes "a";
  committer = codes "c";
  message = codes "m";
  parent_hash = codes "2";
  tag_name = [];
  target = [];
  pushee = [];
}
unfolding join trim_newlines
parse-commit_example =
    parse-commit (codes "1") (codes "2") (codes "a") (codes "c") body commit_IsLine
