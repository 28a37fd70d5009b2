-- ===== src/Gpg/Payload.antt =====
-- internal/gpgsign/commit.go: what the approval prompt shows of the bytes that git wants signed. Bytes
-- are numbers.
pub mod Body
pub mod RoundTrip
use secrets_dispatcher.Prelude.{
  ℕ, suc, String, ◌≡◌, refl, Bool, true, false, ◌&&◌, ◌||◌, Option, none, some, List, [], ◌∷◌, ◌++◌,
  eqb, ltb, is_empty, length, if◌then◌else◌,
}
use secrets_dispatcher.Text.{codes}

pub data PayloadKind : Type 0 where
  commit tag push unknown : PayloadKind

pub record SignedPayload : Type 0 where
  pub kind : PayloadKind
  pub signer : List ℕ
  pub committer : List ℕ
  pub message : List ℕ
  pub parent_hash : List ℕ
  pub tag_name : List ℕ
  pub target : List ℕ
  pub pushee : List ℕ

abbrev pub grow : ℕ → List (List ℕ) → List (List ℕ)
grow c [] = (c ∷ []) ∷ []
grow c (l ∷ ls) = (c ∷ l) ∷ ls

-- `bufio.ScanLines`, before it drops carriage returns: a last line that is empty is none.
unfoldable pub split_lines : List ℕ → List (List ℕ)
split_lines [] = []
split_lines (c ∷ cs) = if eqb c b'\n' then [] ∷ split_lines cs else grow c (split_lines cs)

-- The carriage return at the end of a line.
unfoldable pub drop_cr : List ℕ → List ℕ
drop_cr [] = []
drop_cr (c ∷ []) = if eqb c b'\r' then [] else c ∷ []
drop_cr (c ∷ d ∷ cs) = c ∷ drop_cr (d ∷ cs)

-- The size of the scanner's buffer.
abbrev pub max_line : ℕ
max_line = 1048576

-- The scan ends before a line that does not fit the buffer.
unfoldable pub scan : List (List ℕ) → List (List ℕ)
unfolding drop_cr
scan [] = []
scan (l ∷ ls) = if ltb (length l) max_line then drop_cr l ∷ scan ls else []

-- The lines before the first empty one, and those after it.
unfoldable pub sections : List (List ℕ) → List (List ℕ) × List (List ℕ)
sections [] = ([], [])
sections (l ∷ ls) = let rest = sections ls in if is_empty l then ([], ls) else (l ∷ rest.0, rest.1)

-- `strings.CutPrefix` on bytes.
unfoldable pub cut_bytes : List ℕ → List ℕ → Option (List ℕ)
cut_bytes [] s = some s
cut_bytes (p ∷ ps) [] = none
cut_bytes (p ∷ ps) (c ∷ s) = if eqb p c then cut_bytes ps s else none

abbrev pub begins : String → List ℕ → Bool
begins p h = elim (cut_bytes (codes p) h) [ none ↦ false | some _ ↦ true ]

-- `strings.TrimPrefix`.
abbrev pub trim_prefix : String → List ℕ → List ℕ
trim_prefix p h = elim (cut_bytes (codes p) h) [ none ↦ h | some rest ↦ rest ]

-- `strings.Join(lines, "\n")`.
unfoldable pub join : List (List ℕ) → List ℕ
join [] = []
join (l ∷ []) = l
join (l ∷ m ∷ ls) = l ++ b'\n' ∷ join (m ∷ ls)

-- `strings.TrimRight(s, "\n")`.
unfoldable pub trim_newlines : List ℕ → List ℕ
trim_newlines [] = []
trim_newlines (c ∷ cs) =
    let rest = trim_newlines cs in if eqb c b'\n' && is_empty rest then [] else c ∷ rest

abbrev pub kind_of : List ℕ → PayloadKind
kind_of h =
    if begins "tree " h
    then commit
    else if begins "object " h
    then tag
    else if begins "certificate version " h
    then push
    else unknown

-- The cases of the switch in the loop over the headers.
pub data Header : Type 0 where
  author_line tagger_line pusher_line committer_line parent_line tag_line object_line : Header
  pushee_line other_line : Header

-- The case that a header falls into, after the parent and the target found so far.
abbrev pub header_case : List ℕ → List ℕ → List ℕ → Header
header_case parent target h =
    if begins "author " h
    then author_line
    else if begins "tagger " h
    then tagger_line
    else if begins "pusher " h
    then pusher_line
    else if begins "committer " h
    then committer_line
    else if begins "parent " h && is_empty parent
    then parent_line
    else if begins "tag " h
    then tag_line
    else if begins "object " h && is_empty target
    then object_line
    else if begins "pushee " h
    then pushee_line
    else other_line

unfoldable pub assign : SignedPayload → List ℕ → Header → SignedPayload
assign p h author_line = record p { signer = trim_prefix "author " h }
assign p h tagger_line = record p { signer = trim_prefix "tagger " h }
assign p h pusher_line = record p { signer = trim_prefix "pusher " h }
assign p h committer_line = record p { committer = trim_prefix "committer " h }
assign p h parent_line = record p { parent_hash = trim_prefix "parent " h }
assign p h tag_line = record p { tag_name = trim_prefix "tag " h }
assign p h object_line = record p { target = trim_prefix "object " h }
assign p h pushee_line = record p { pushee = trim_prefix "pushee " h }
assign p h other_line = p

-- One round of the loop over the headers.
unfoldable pub read_header : SignedPayload → List ℕ → SignedPayload
unfolding cut_bytes assign
read_header p h = assign p h (header_case p.parent_hash p.target h)

unfoldable pub read_headers : SignedPayload → List (List ℕ) → SignedPayload
unfolding read_header
read_headers p [] = p
read_headers p (h ∷ hs) = read_headers (read_header p h) hs

abbrev pub blank : PayloadKind → List ℕ → SignedPayload
blank k m = record {
  kind = k;
  signer = [];
  committer = [];
  message = m;
  parent_hash = [];
  tag_name = [];
  target = [];
  pushee = [];
}

abbrev pub payload_of : List (List ℕ) → List ℕ → SignedPayload
payload_of [] m = blank unknown m
payload_of (h ∷ hs) m = read_headers (blank (kind_of h) m) (h ∷ hs)

unfoldable pub parse_signed_payload : List ℕ → SignedPayload
unfolding split_lines scan sections join trim_newlines read_headers cut_bytes
parse_signed_payload data_ =
    let (headers, body) = sections (scan (split_lines data_)) in
    payload_of headers (trim_newlines (join body))

-- Author, committer, message and parent.
unfoldable pub parse_commit_object : List ℕ → List ℕ × List ℕ × List ℕ × List ℕ
unfolding parse_signed_payload
parse_commit_object data_ =
    let p = parse_signed_payload data_ in (p.signer, p.committer, p.message, p.parent_hash)

runs :
    parse_signed_payload
      (codes "tree 1\nparent 2\nparent 3\nauthor a\r\ncommitter c\n\nauthor x\n\nsubject\n\n")
    ≡ record {
      kind = commit;
      signer = codes "a";
      committer = codes "c";
      message = codes "author x\n\nsubject";
      parent_hash = codes "2";
      tag_name = [];
      target = [];
      pushee = [];
    }
unfolding parse_signed_payload
runs = refl
