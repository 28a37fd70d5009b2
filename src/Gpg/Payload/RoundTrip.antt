-- ===== src/Gpg/Payload/RoundTrip.antt =====
-- What internal/gpgsign/commit.go reads back from a payload as git writes it.
use secrets_dispatcher.Prelude.{
  ℕ, ◌≡◌, refl, ap, ◌∙◌, true, not, List, [], ◌∷◌, ◌++◌, eqb, ltb, all, length, is_empty, All,
  arith,
}
use secrets_dispatcher.Text.{codes}
use secrets_dispatcher.Gpg.Payload.{
  commit, push, tag, split_lines, drop_cr, max_line, scan, sections, read_headers, join,
  trim_newlines, parse_signed_payload, payload_of,
}

-- Each line, and its newline.
abbrev pub print_lines : List (List ℕ) → List ℕ
print_lines [] = []
print_lines (l ∷ ls) = l ++ b'\n' ∷ print_lines ls

-- A line that the scanner reads as it stands: no newline in it, no carriage return at its end, and no
-- longer than the buffer.
pub record IsLine (l : List ℕ) : Type 0 where
  pub no_newline : all (λ c. not (eqb c b'\n')) l ≡ true
  pub no_cr : drop_cr l ≡ l
  pub fits : ltb (length l) max_line ≡ true

split_lines-line :
    (l rest : List ℕ)
    → all (λ c. not (eqb c b'\n')) l ≡ true
    → split_lines (l ++ b'\n' ∷ rest) ≡ l ∷ split_lines rest
unfolding split_lines
split_lines-line [] rest h = refl
split_lines-line (c ∷ l) rest h = ground (arith, split_lines-line l rest)

split_lines-print : (ls : List (List ℕ)) → All IsLine ls → split_lines (print_lines ls) ≡ ls
unfolding split_lines
split_lines-print [] h = refl
split_lines-print (l ∷ ls) h =
    split_lines-line l (print_lines ls) h.0.no_newline ∙ ap (◌∷◌ l) (split_lines-print ls h.1)

scan-lines : (ls : List (List ℕ)) → All IsLine ls → scan ls ≡ ls
unfolding scan
scan-lines [] h = refl
scan-lines (l ∷ ls) h = rw (h.0.fits, h.0.no_cr, scan-lines ls h.1) refl

sections-headers :
    (hs body : List (List ℕ))
    → all (λ h. not (is_empty h)) hs ≡ true
    → sections (hs ++ [] ∷ body) ≡ (hs, body)
unfolding sections
sections-headers [] body n = refl
sections-headers (h ∷ hs) body n = ground (arith, sections-headers hs body)

abbrev pub commit_lines : List ℕ → List ℕ → List ℕ → List ℕ → List (List ℕ)
commit_lines tree parent author committer =
    (codes "tree " ++ tree)
    ∷ (codes "parent " ++ parent)
    ∷ (codes "author " ++ author)
    ∷ (codes "committer " ++ committer)
    ∷ []

module _ (hs body : List (List ℕ)) where
  parse-print :
      All IsLine (hs ++ [] ∷ body)
      → all (λ h. not (is_empty h)) hs ≡ true
      → parse_signed_payload (print_lines (hs ++ [] ∷ body))
        ≡ payload_of hs (trim_newlines (join body))
  unfolding parse_signed_payload
  parse-print lines full =
      ap (λ ls. let (headers, text) = sections ls in payload_of headers (trim_newlines (join text)))
        (ap scan (split_lines-print (hs ++ [] ∷ body) lines) ∙ scan-lines (hs ++ [] ∷ body) lines)
      ∙ ap (λ s. payload_of s.0 (trim_newlines (join s.1))) (sections-headers hs body full)

-- A commit with one parent as git writes it, each of its lines as the scanner reads it, is shown with
-- its author, its committer, its parent, and its message less the newlines at its end.
pub parse-commit :
    (tree parent author committer : List ℕ) (body : List (List ℕ))
    → All IsLine (commit_lines tree parent author committer ++ [] ∷ body)
    → parse_signed_payload (print_lines (commit_lines tree parent author committer ++ [] ∷ body))
      ≡ record {
        kind = commit;
        signer = author;
        committer = committer;
        message = trim_newlines (join body);
        parent_hash = parent;
        tag_name = [];
        target = [];
        pushee = [];
      }
unfolding parse_signed_payload read_headers
parse-commit tree parent author committer body lines =
    parse-print (commit_lines tree parent author committer) body lines refl

abbrev pub tag_lines : List ℕ → List ℕ → List ℕ → List ℕ → List (List ℕ)
tag_lines object kind name tagger =
    (codes "object " ++ object)
    ∷ (codes "type " ++ kind)
    ∷ (codes "tag " ++ name)
    ∷ (codes "tagger " ++ tagger)
    ∷ []

-- An annotated tag as git writes it, each of its lines as the scanner reads it, is shown with its
-- name, its tagger, the object it points at, and its message less the newlines at its end.
pub parse-tag :
    (object kind name tagger : List ℕ) (body : List (List ℕ))
    → All IsLine (tag_lines object kind name tagger ++ [] ∷ body)
    → parse_signed_payload (print_lines (tag_lines object kind name tagger ++ [] ∷ body)) ≡ record {
      kind = tag;
      signer = tagger;
      committer = [];
      message = trim_newlines (join body);
      parent_hash = [];
      tag_name = name;
      target = object;
      pushee = [];
    }
unfolding parse_signed_payload read_headers
parse-tag object kind name tagger body lines =
    parse-print (tag_lines object kind name tagger) body lines refl

abbrev pub push_lines : List ℕ → List ℕ → List ℕ → List ℕ → List (List ℕ)
push_lines version pusher pushee nonce =
    (codes "certificate version " ++ version)
    ∷ (codes "pusher " ++ pusher)
    ∷ (codes "pushee " ++ pushee)
    ∷ (codes "nonce " ++ nonce)
    ∷ []

-- A push certificate as git writes it, each of its lines as the scanner reads it, is shown with its
-- pusher, its destination, and the updates of the refs less the newlines at their end.
pub parse-push :
    (version pusher pushee nonce : List ℕ) (body : List (List ℕ))
    → All IsLine (push_lines version pusher pushee nonce ++ [] ∷ body)
    → parse_signed_payload (print_lines (push_lines version pusher pushee nonce ++ [] ∷ body))
      ≡ record {
        kind = push;
        signer = pusher;
        committer = [];
        message = trim_newlines (join body);
        parent_hash = [];
        tag_name = [];
        target = [];
        pushee = pushee;
      }
unfolding parse_signed_payload read_headers
parse-push version pusher pushee nonce body lines =
    parse-print (push_lines version pusher pushee nonce) body lines refl
