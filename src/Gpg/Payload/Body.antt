-- ===== src/Gpg/Payload/Body.antt =====
-- What the body of a signed payload can change in what internal/gpgsign/commit.go shows of it.
use secrets_dispatcher.Prelude.{
  ℕ, ◌≡◌, refl, sym, ap, ◌∙◌, true, false, List, [], ◌∷◌, ◌++◌, eqb, arith, if◌then◌else◌,
}
use secrets_dispatcher.Gpg.Payload.{
  SignedPayload, split_lines, grow, drop_cr, scan, sections, read_header, Header, header_case,
  assign, read_headers, blank, kind_of, payload_of, join, trim_newlines, parse_signed_payload,
}

abbrev SplitAtNewline : List ℕ → List ℕ → Type 0
SplitAtNewline xs ys =
    (l : List ℕ) × (ls : List (List ℕ)) × (split_lines (xs ++ b'\n' ∷ []) ≡ l ∷ ls)
    × (split_lines (xs ++ b'\n' ∷ ys) ≡ l ∷ ls ++ split_lines ys)

split_lines-newline : (xs ys : List ℕ) → SplitAtNewline xs ys
unfolding split_lines
split_lines-newline [] ys = ([], [], refl, refl)
split_lines-newline (c ∷ xs) ys =
    let (l, ls, e, f) = split_lines-newline xs ys in
    elim (eqb c b'\n')
      as (λ b.
        (m : List ℕ) × (ms : List (List ℕ)) × ((if b
            then [] ∷ split_lines (xs ++ b'\n' ∷ [])
            else grow c (split_lines (xs ++ b'\n' ∷ [])))
          ≡ m ∷ ms)
        × ((if b
              then [] ∷ split_lines (xs ++ b'\n' ∷ ys)
              else grow c (split_lines (xs ++ b'\n' ∷ ys)))
            ≡ m ∷ ms ++ split_lines ys)) [
              | true ↦ ([], l ∷ ls, ap (◌∷◌ []) e, ap (◌∷◌ []) f)
              | false ↦ (c ∷ l, ls, ap (grow c) e, ap (grow c) f)
            ]

-- An empty line stands between what precedes it and what follows.
split_lines-blank :
    (xs ys : List ℕ)
    → split_lines (xs ++ b'\n' ∷ b'\n' ∷ ys) ≡ split_lines (xs ++ b'\n' ∷ []) ++ [] ∷ split_lines ys
unfolding split_lines
split_lines-blank xs ys =
    let (l, ls, e, f) = split_lines-newline xs (b'\n' ∷ ys) in
    f ∙ ap (λ z. z ++ [] ∷ split_lines ys) (sym e)

-- The headers are fixed by the lines up to the first empty one.
headers_fixed :
    (ls : List (List ℕ)) (ms ns : List (List ℕ))
    → (sections (scan (ls ++ [] ∷ ms))).0 ≡ (sections (scan (ls ++ [] ∷ ns))).0
unfolding sections scan drop_cr
headers_fixed [] ms ns = refl
headers_fixed (l ∷ ls) ms ns = ground (arith, headers_fixed ls ms ns)

assign-message :
    (p : SignedPayload) (h m : List ℕ) (c : Header)
    → record (assign p h c) { message = m } ≡ assign (record p { message = m }) h c
unfolding assign
assign-message p h m Header.author_line = refl
assign-message p h m Header.tagger_line = refl
assign-message p h m Header.pusher_line = refl
assign-message p h m Header.committer_line = refl
assign-message p h m Header.parent_line = refl
assign-message p h m Header.tag_line = refl
assign-message p h m Header.object_line = refl
assign-message p h m Header.pushee_line = refl
assign-message p h m Header.other_line = refl

read_header-message :
    (p : SignedPayload) (h m : List ℕ)
    → record (read_header p h) { message = m } ≡ read_header (record p { message = m }) h
unfolding read_header
read_header-message p h m = assign-message p h m (header_case p.parent_hash p.target h)

read_headers-message :
    (p : SignedPayload) (hs : List (List ℕ)) (m : List ℕ)
    → record (read_headers p hs) { message = m } ≡ read_headers (record p { message = m }) hs
unfolding read_headers
read_headers-message p [] m = refl
read_headers-message p (h ∷ hs) m =
    read_headers-message (read_header p h) hs m
    ∙ ap (λ q. read_headers q hs) (read_header-message p h m)

payload_of-message :
    (hs : List (List ℕ)) (m n : List ℕ) → record (payload_of hs m) { message = n } ≡ payload_of hs n
payload_of-message [] m n = refl
payload_of-message (h ∷ hs) m n = read_headers-message (blank (kind_of h) m) (h ∷ hs) n

-- What follows the first empty line changes nothing but the message: a body cannot forge the kind, the
-- signer, the committer, the parent, the tag or the destination.
pub body_changes_message_only :
    (head a b m : List ℕ)
    → record (parse_signed_payload (head ++ b'\n' ∷ b'\n' ∷ a)) { message = m }
      ≡ record (parse_signed_payload (head ++ b'\n' ∷ b'\n' ∷ b)) { message = m }
unfolding parse_signed_payload
body_changes_message_only head a b m =
    payload_of-message (headers a) (text_of a) m
    ∙ ap (λ hs. payload_of hs m) same_headers
    ∙ sym (payload_of-message (headers b) (text_of b) m)
  where
    lines : List ℕ → List (List ℕ)
    lines c = split_lines (head ++ b'\n' ∷ b'\n' ∷ c)

    headers : List ℕ → List (List ℕ)
    headers c = (sections (scan (lines c))).0

    text_of : List ℕ → List ℕ
    text_of c = trim_newlines (join (sections (scan (lines c))).1)

    same_headers : headers a ≡ headers b
    same_headers =
        ap (λ ls. (sections (scan ls)).0) (split_lines-blank head a)
        ∙ headers_fixed (split_lines (head ++ b'\n' ∷ [])) (split_lines a) (split_lines b)
        ∙ sym (ap (λ ls. (sections (scan ls)).0) (split_lines-blank head b))
