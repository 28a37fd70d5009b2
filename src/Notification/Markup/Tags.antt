-- ===== src/Notification/Markup/Tags.antt =====
-- internal/notification/desktop.go: the body of a notification has the program's own tags only.
use Prim.Native.Char.{Char, code}
use Prim.Native.String
use secrets_dispatcher.Prelude.{
  ℕ, ◌+◌, ◌≤◌, String, ◌≡◌, refl, ap, ◌∙◌, Bool, true, none, some, Option, inl, inr, List, [], ◌∷◌,
  ◌++◌, ◌==◌, eqb, all, length, Bool-cases, if◌then◌else◌, arith,
}
use secrets_dispatcher.Prelude.Dict.{Dict, get}
use secrets_dispatcher.Text.{codes, codes-append, concat, join_texts}
use secrets_dispatcher.Text.Decimal.{decimal, is_digit, decimal-is_digit}
use secrets_dispatcher.Approval.Types.{
  ProcessInfo, ItemInfo, RequestType, Request, get_secret, search_items, delete_item, write_item,
  ssh_sign, gpg_sign, GpgSignInfo,
}
use secrets_dispatcher.Notification.Markup.{
  escape_char, escape_markup, chain_text, attribute_texts, escaped_search_attrs, items_text,
  search_text, detail_text, origin_text, gpg_text, ssh_text, plain_text, body_text, format_body,
  pid_text, destination_text, write_chain, commit_subject,
}

-- How many tags a text opens.
abbrev angles_in : List ℕ → ℕ
angles_in [] = 0
angles_in (c ∷ cs) = (if eqb c b'<' then 1 else 0) + angles_in cs

angles_in-append : (xs ys : List ℕ) → angles_in (xs ++ ys) ≡ angles_in xs + angles_in ys
angles_in-append [] ys = omega arith
angles_in-append (x ∷ xs) ys = omega (arith, angles_in-append xs ys)

unfoldable pub tags : String → ℕ
tags s = angles_in (codes s)

tags-append : (s t : String) → tags (String.◌++◌ s t) ≡ tags s + tags t
unfolding tags
tags-append s t = ap angles_in (codes-append s t) ∙ angles_in-append (codes s) (codes t)

-- Of the pieces, one after another.
tags_of : List String → ℕ
tags_of [] = 0
tags_of (s ∷ ss) = tags s + tags_of ss

tags-concat : (ss : List String) → tags (concat ss) ≡ tags_of ss
unfolding tags_of
tags-concat [] = unfold tags in refl
tags-concat (s ∷ ss) = tags-append s (concat ss) ∙ ap (λ n. tags s + n) (tags-concat ss)

tags-escape_char : (c : Char) → tags (escape_char c) ≡ 0
unfolding escape_char tags
tags-escape_char c = elim (Bool-cases (eqb (code c) b'&')) [
  | inl e ↦ rw e refl
  | inr e ↦ elim (Bool-cases (eqb (code c) b'<')) [
    | inl f ↦ rw (e, f) refl
    | inr f ↦ elim (Bool-cases (eqb (code c) b'>')) [
      | inl g ↦ rw (e, f, g) refl
      | inr g ↦ rw (e, f, g) (rw f refl)
    ]
  ]
]

tags-escape : (s : String) → tags (escape_markup s) ≡ 0
unfolding escape_markup tags_of
tags-escape String.[] = unfold tags in refl
tags-escape (String.◌∷◌ c s) =
    tags-concat (escape_char c ∷ escape_markup s ∷ [])
    ∙ omega (arith, tags-escape_char c, tags-escape s)

angles_in-digits : (cs : List ℕ) → all is_digit cs ≡ true → angles_in cs ≡ 0
angles_in-digits [] h = refl
angles_in-digits (c ∷ cs) h = ground (arith, angles_in-digits cs)

tags-decimal : (n : ℕ) → tags (decimal n) ≡ 0
unfolding tags
tags-decimal n = angles_in-digits (codes (decimal n)) (decimal-is_digit n)

-- A literal text's tags are counted by evaluation.
module _ (show_pids : Bool) where
  tags-pid_text : (pid : ℕ) → tags (pid_text show_pids pid) ≡ 0
  unfolding tags_of
  tags-pid_text pid = elim (Bool-cases show_pids) [
    | inl e ↦ rw e (
        tags-concat ("[" ∷ decimal pid ∷ "]" ∷ []) ∙ unfold tags in omega (arith, tags-decimal pid))
    | inr e ↦ rw e (unfold tags in refl)
  ]

  tags-chain_text :
      (lead : String) (ps : List ProcessInfo)
      → tags lead ≡ 0
      → tags (chain_text show_pids lead ps) ≡ 0
  unfolding chain_text tags_of
  tags-chain_text lead [] h = unfold tags in refl
  tags-chain_text lead (p ∷ ps) h =
      tags-concat (
        lead ∷ escape_markup p.name ∷ pid_text show_pids p.pid ∷ chain_text show_pids " ← " ps ∷ [])
      ∙ omega (
        arith,
        h,
        tags-escape p.name,
        tags-pid_text p.pid,
        tags-chain_text " ← " ps (unfold tags in refl),
      )

  tags-write_chain : (ps : List ProcessInfo) → tags (write_chain show_pids ps) ≡ 0
  tags-write_chain ps = tags-chain_text "\n" ps (unfold tags in refl)

tags-pair : (k v : String) → tags (concat (escape_markup k ∷ "=" ∷ escape_markup v ∷ [])) ≡ 0
unfolding tags_of
tags-pair k v =
    tags-concat (escape_markup k ∷ "=" ∷ escape_markup v ∷ [])
    ∙ unfold tags in omega (arith, tags-escape k, tags-escape v)

tags-comma : (s t : String) → tags (String.◌++◌ s (String.◌++◌ ", " t)) ≡ tags s + tags t
tags-comma s t =
    tags-append s (String.◌++◌ ", " t) ∙ unfold tags in omega (arith, tags-append ", " t)

tags-attribute_texts : (attrs : Dict String) → tags (join_texts ", " (attribute_texts attrs)) ≡ 0
unfolding attribute_texts join_texts
tags-attribute_texts [] = unfold tags in refl
tags-attribute_texts ((k, v) ∷ []) = tags-pair k v
tags-attribute_texts ((k, v) ∷ (l, w) ∷ attrs) =
    tags-comma (concat (escape_markup k ∷ "=" ∷ escape_markup v ∷ []))
      (join_texts ", " (attribute_texts ((l, w) ∷ attrs)))
    ∙ omega (arith, tags-pair k v, tags-attribute_texts ((l, w) ∷ attrs))

module _ (start end : String) (opens : tags start ≡ 1) (closes : tags end ≡ 1) where
  tags-counted : (n : ℕ) → tags (concat (start ∷ decimal n ∷ " items" ∷ end ∷ [])) ≡ 2
  unfolding tags_of
  tags-counted n =
      tags-concat (start ∷ decimal n ∷ " items" ∷ end ∷ [])
      ∙ unfold tags in omega (arith, opens, closes, tags-decimal n)

  tags-items_text : (items : List ItemInfo) → tags (items_text start end items) ≡ 2
  unfolding items_text tags_of
  tags-items_text (it ∷ []) =
      tags-concat (start ∷ escape_markup it.label ∷ end ∷ [])
      ∙ omega (arith, opens, closes, tags-escape it.label)
  tags-items_text [] = tags-counted 0
  tags-items_text (it ∷ jt ∷ items) = tags-counted (length (it ∷ jt ∷ items))

  tags-search_text : (attrs : Dict String) → tags (search_text start end attrs) ≡ 2
  unfolding search_text tags_of escaped_search_attrs
  tags-search_text [] =
      tags-concat (start ∷ "all" ∷ end ∷ []) ∙ unfold tags in omega (arith, opens, closes)
  tags-search_text (a ∷ attrs) =
      tags-concat (start ∷ escaped_search_attrs (a ∷ attrs) ∷ end ∷ [])
      ∙ omega (arith, opens, closes, tags-attribute_texts (a ∷ attrs))

  tags-detail_text-le :
      (type : RequestType) (req : Request) → tags (detail_text start end type req) ≤ 2
  unfolding detail_text
  tags-detail_text-le get_secret req = omega (arith, tags-items_text req.items)
  tags-detail_text-le delete_item req = omega (arith, tags-items_text req.items)
  tags-detail_text-le write_item req = omega (arith, tags-items_text req.items)
  tags-detail_text-le search_items req = omega (arith, tags-search_text req.search_attributes)
  tags-detail_text-le _ req = unfold tags in omega arith

tags-origin_text : (req : Request) → tags (origin_text req) ≡ 2
unfolding origin_text tags_of tags
tags-origin_text req = elim (Bool-cases (req.sender_info.invoker_name == "")) [
  | inl e ↦ elim (Bool-cases (eqb req.sender_info.pid 0)) [
    | inl f ↦
        rw (e, f)
          (tags-concat ("<b>" ∷ escape_markup req.client ∷ "</b>: " ∷ [])
            ∙ omega (arith, tags-escape req.client))
    | inr f ↦
        rw (e, f)
          (tags-concat (
              "<b>" ∷ escape_markup req.client ∷ "</b>[" ∷ decimal req.sender_info.pid ∷ "]: " ∷ [])
            ∙ omega (arith, tags-escape req.client, tags-decimal req.sender_info.pid))
  ]
  | inr e ↦ rw e (
      tags-concat (
        "<b>"
        ∷ escape_markup req.sender_info.invoker_name
        ∷ "</b>@"
        ∷ escape_markup req.client
        ∷ "["
        ∷ decimal req.sender_info.pid
        ∷ "]: "
        ∷ [])
      ∙ omega (
        arith,
        tags-escape req.client,
        tags-escape req.sender_info.invoker_name,
        tags-decimal req.sender_info.pid,
      ))
]

tags-destination_text : (o : Option String) → tags (destination_text o) ≡ 0
unfolding tags tags_of
tags-destination_text none = refl
tags-destination_text (some dest) = elim (Bool-cases (dest == "")) [
  | inl e ↦ rw e refl
  | inr e ↦ rw e (tags-concat (" → " ∷ escape_markup dest ∷ []) ∙ omega (arith, tags-escape dest))
]

tags-ssh_text-le : (items : List ItemInfo) → tags (ssh_text items) ≤ 4
unfolding ssh_text tags_of tags
tags-ssh_text-le [] = omega arith
tags-ssh_text-le (it ∷ items) =
    let dest = destination_text (get "destination" it.attributes) in
    omega (
      arith,
      tags-concat ("<b>" ∷ escape_markup it.label ∷ "</b>" ∷ dest ∷ []),
      tags-escape it.label,
      tags-destination_text (get "destination" it.attributes),
    )

module _ (show_pids : Bool) (req : Request) where
  tags-gpg_text-le : (o : Option GpgSignInfo) → tags (gpg_text show_pids req o) ≤ 4
  unfolding gpg_text tags_of tags
  tags-gpg_text-le none = omega arith
  tags-gpg_text-le (some info) = omega (
    arith,
    tags-concat (
        "<b>"
        ∷ escape_markup info.repo_name
        ∷ "</b>: <i>"
        ∷ escape_markup (commit_subject info.commit_msg)
        ∷ "</i>"
        ∷ write_chain show_pids req.sender_info.process_chain
        ∷ []),
    tags-escape info.repo_name,
    tags-escape (commit_subject info.commit_msg),
    tags-write_chain show_pids req.sender_info.process_chain,
  )

  tags-plain_text-le : (ps : List ProcessInfo) → tags (plain_text show_pids req ps) ≤ 4
  unfolding plain_text tags_of
  tags-plain_text-le [] = omega (
    arith,
    tags-concat (origin_text req ∷ detail_text "<i>" "</i>" req.type req ∷ []),
    tags-origin_text req,
    tags-detail_text-le "<i>" "</i>" (unfold tags in refl) (unfold tags in refl) req.type req,
  )
  tags-plain_text-le (p ∷ ps) = omega (
    arith,
    tags-concat (detail_text "<b>" "</b>" req.type req ∷ write_chain show_pids (p ∷ ps) ∷ []),
    tags-write_chain show_pids (p ∷ ps),
    tags-detail_text-le "<b>" "</b>" (unfold tags in refl) (unfold tags in refl) req.type req,
  )

  tags-body_text-le : (type : RequestType) → tags (body_text show_pids req type) ≤ 4
  unfolding body_text tags_of
  tags-body_text-le gpg_sign = tags-gpg_text-le req.gpg_sign_info
  tags-body_text-le ssh_sign = omega (
    arith,
    tags-concat (ssh_text req.items ∷ write_chain show_pids req.sender_info.process_chain ∷ []),
    tags-ssh_text-le req.items,
    tags-write_chain show_pids req.sender_info.process_chain,
  )
  tags-body_text-le _ = tags-plain_text-le req.sender_info.process_chain

-- Whatever texts the client puts into the request, the body has at most four tags: those that the
-- program writes around two of its texts.
pub tags-format_body-le : (show_pids : Bool) (req : Request) → tags (format_body show_pids req) ≤ 4
unfolding format_body
tags-format_body-le show_pids req = tags-body_text-le show_pids req req.type
