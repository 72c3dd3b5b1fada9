-- ===== src/Bootstrap/Complete.antt =====
-- A bootstrap without a limit loads every value of every page (`_iter_page` and `iter_values`).
use opencti_middleware.Base.{
  ℕ, zero, suc, ◌≤◌, String, ◌≡◌, refl, ◌∙◌, sym, ap, Bool, true, false, Option, none, some, List,
  [], ◌∷◌, ◌++◌, arith, inl, inr, Bool-cases, if◌then◌else◌,
}
use mathlib.Core.List.{append_assoc, append-nil}
use opencti_middleware.Base.{then_branch, else_branch}
use opencti_middleware.Base.Json.{Json, Fields, obj, get, truthy, field, end}
use opencti_middleware.Base.Result.{Result, ok, ◌>>=◌, ok_of_bind}
use opencti_middleware.Base.Python.{as_dict, or_dict, iterate_or_empty}
use opencti_middleware.Breaker.{closed, state, allows, record_success}
use opencti_middleware.Client.{
  Client, response, read_body, read_response, settle, attempt_loop, execute,
}
use opencti_middleware.Indicators.{Normalized}
use opencti_middleware.Bootstrap.{
  Upstream, ask, document_of, root_of, page_variables, edge_values, reached_limit, stored,
  load_value, load_values, load_edges, next_cursor, load_block, load_page, load_pages,
}

-- the block of a page, as OpenCTI's answer holds it
abbrev pub answer_of : Bool → Fields → Json
answer_of precise block = obj (field "data" (obj (field (root_of precise) (obj block) end)) end)

module _ (normalize : String → Normalized) where
  abbrev pub add_text : Option String → List String → List String
  add_text none texts = texts
  add_text (some text) texts = text ∷ texts

  -- the texts that are stored for the values of an edge, and of the edges of a page
  unfoldable pub value_texts : List Json → Result (List String)
  value_texts [] = ok []
  value_texts (value ∷ values) =
      let skip = value_texts values in
      if truthy value
      then (stored normalize none value >>= λ v.
          value_texts values >>= λ rest. ok (add_text v rest))
      else skip

  unfoldable pub edge_list_texts : Bool → List Json → Result (List String)
  edge_list_texts precise [] = ok []
  edge_list_texts precise (edge ∷ edges) = edge_values precise edge >>= λ values.
      value_texts values >>= λ texts. edge_list_texts precise edges >>= λ rest. ok (texts ++ rest)

  load_values-value_texts :
      (values : List Json) (loaded texts : List String)
      → value_texts values ≡ ok texts
      → load_values normalize none values loaded ≡ ok (loaded ++ texts, false)
  unfolding load_values value_texts load_value reached_limit
  load_values-value_texts [] loaded texts h =
      let none_left : [] ≡ texts = ground arith in rw (sym none_left, append-nil loaded) refl
  load_values-value_texts (value ∷ values) loaded texts h = elim (Bool-cases (truthy value)) [
    | inr blank ↦
        rw (blank, load_values)
          (load_values-value_texts values loaded texts (else_branch _ _ _ blank h))
    | inl held ↦
        let (v, e, k) = ok_of_bind (stored normalize none value) (then_branch _ _ _ held h) in
        let (rest, e', k') = ok_of_bind (value_texts values) k in
        rw (held, e, load_values) (go (λ l t. load_values-value_texts values l t) v rest e' k')
  ]
    where
      go :
          ((l t : List String)
            → value_texts values ≡ ok t
            → load_values normalize none values l ≡ ok (l ++ t, false))
          → (v : Option String) (rest : List String) → value_texts values ≡ ok rest
          → ok (add_text v rest) ≡ ok texts
          → (if (load_value normalize none v loaded).1
              then ok (load_value normalize none v loaded)
              else load_values normalize none values (load_value normalize none v loaded).0)
            ≡ ok (loaded ++ texts, false)
      go again none rest e k =
          let same : rest ≡ texts = cc in
          again loaded rest e ∙ ap (λ t. ok (loaded ++ t, false)) same
      go again (some text) rest e k =
          let same : text ∷ rest ≡ texts = cc in
          again (loaded ++ text ∷ []) rest e
          ∙ ap (λ t. ok (t, false)) (append_assoc loaded (text ∷ []) rest)
          ∙ ap (λ t. ok (loaded ++ t, false)) same

  load_edges-edge_list_texts :
      (precise : Bool) (edges : List Json) (loaded texts : List String)
      → edge_list_texts precise edges ≡ ok texts
      → load_edges normalize none precise edges loaded ≡ ok (loaded ++ texts, false)
  unfolding load_edges edge_list_texts
  load_edges-edge_list_texts precise [] loaded texts h =
      let none_left : [] ≡ texts = ground arith in rw (sym none_left, append-nil loaded) refl
  load_edges-edge_list_texts precise (edge ∷ edges) loaded texts h =
      let (values, e, k) = ok_of_bind (edge_values precise edge) h in
      let (here, e', k') = ok_of_bind (value_texts values) k in
      let (rest, e'', k'') = ok_of_bind (edge_list_texts precise edges) k' in
      let same : here ++ rest ≡ texts = cc in
      rw (e, load_values-value_texts values loaded here e')
        (load_edges-edge_list_texts precise edges (loaded ++ here) rest e''
          ∙ ap (λ t. ok (t, false)) (append_assoc loaded here rest)
          ∙ ap (λ t. ok (loaded ++ t, false)) same)

  -- The pages that a server answers with, from a cursor on: the texts of each, and where it leads.
  pub data Chain (precise : Bool) (reply : Json → Fields) : Json → List String → ℕ → Type 0 where
    last :
        {cursor : Json} {edges : List Json} {texts : List String}
        → iterate_or_empty (get "edges" (reply cursor)) ≡ ok edges
        → edge_list_texts precise edges ≡ ok texts
        → next_cursor normalize none (reply cursor) ≡ ok none
        → Chain precise reply cursor texts 1
    more :
        {cursor after : Json} {edges : List Json} {texts rest : List String} {n : ℕ}
        → iterate_or_empty (get "edges" (reply cursor)) ≡ ok edges
        → edge_list_texts precise edges ≡ ok texts
        → next_cursor normalize none (reply cursor) ≡ ok (some after)
        → Chain precise reply after rest n
        → Chain precise reply cursor (texts ++ rest) (suc n)

  -- Every request for a page is answered with the block of its cursor.
  abbrev pub Answers : Upstream → Bool → ℕ → (Json → Fields) → Type 0
  Answers u precise size reply =
      (cursor : Json) (k : ℕ)
      → u.opencti (document_of precise) (page_variables size cursor) k
        ≡ response 200 (some (answer_of precise (reply cursor)))

  ask_lem :
      (u : Upstream) (precise : Bool) (size : ℕ) (reply : Json → Fields) (cursor : Json)
      (c : Client)
      → Answers u precise size reply
      → c.breaker.stored ≡ closed
      → ((ask u true (document_of precise) (page_variables size cursor) c).0
          ≡ ok (obj (field (root_of precise) (obj (reply cursor)) end)))
        × ((ask u true (document_of precise) (page_variables size cursor) c).1.breaker.stored
            ≡ closed)
  unfolding ask execute attempt_loop settle read_response read_body allows state record_success
  ask_lem u precise size reply cursor c a h = rw (a cursor, h, allows) (refl, refl)

  block_lem : (block : Fields) → as_dict (or_dict (obj block)) ≡ ok block
  block_lem end = refl
  block_lem (field k v fs) = refl

  load_page_lem :
      (u : Upstream) (precise : Bool) (size : ℕ) (reply : Json → Fields) (cursor : Json)
      (loaded : List String) (c : Client) (edges : List Json) (texts : List String)
      (next : Option Json)
      → Answers u precise size reply
      → c.breaker.stored ≡ closed
      → iterate_or_empty (get "edges" (reply cursor)) ≡ ok edges
      → edge_list_texts precise edges ≡ ok texts
      → next_cursor normalize none (reply cursor) ≡ ok next
      → (load_page normalize none u precise size cursor loaded c).0
        ≡ ok ((loaded ++ texts, false), next)
  unfolding load_page load_block
  load_page_lem u true size reply cursor loaded c edges texts next a h e t n =
      rw
        (
          (ask_lem u true size reply cursor c a h).0,
          block_lem (reply cursor),
          e,
          load_edges-edge_list_texts true edges loaded texts t,
          n,
        )
        refl
  load_page_lem u false size reply cursor loaded c edges texts next a h e t n =
      rw
        (
          (ask_lem u false size reply cursor c a h).0,
          block_lem (reply cursor),
          e,
          load_edges-edge_list_texts false edges loaded texts t,
          n,
        )
        refl

  -- Where OpenCTI serves n pages, each leading to the next and the last to none, a bootstrap without a
  -- limit and with fuel for n pages ends, and has loaded the texts of all of them in their order.
  pub load_pages-Chain :
      (u : Upstream) (precise : Bool) (size : ℕ) (reply : Json → Fields) (fuel n : ℕ)
      (cursor : Json) (loaded texts : List String) (c : Client)
      → Answers u precise size reply
      → c.breaker.stored ≡ closed
      → Chain precise reply cursor texts n
      → n ≤ fuel
      → (load_pages normalize none u precise size fuel cursor loaded c).0
        ≡ some (ok (loaded ++ texts, false))
  unfolding load_pages
  load_pages-Chain u precise size reply zero n cursor loaded texts c a h (last e t d) f =
      absurd (omega arith)
  load_pages-Chain u precise size reply zero n cursor loaded texts c a h (more e t d rest) f =
      absurd (omega arith)
  load_pages-Chain u precise size reply (suc fuel) n cursor loaded texts c a h (last e t d) f =
      let page = load_page_lem u precise size reply cursor loaded c _ texts none a h e t d in
      rw (page, load_pages) (rw page refl)
  load_pages-Chain u precise size reply (suc fuel) n cursor loaded texts c a h
        (more {after = after} {texts = here} {rest = there} e t d rest) f =
      let c' = (load_page normalize none u precise size cursor loaded c).1 in
      rw
        (
          load_page_lem u precise size reply cursor loaded c _ here (some after) a h e t d,
          load_pages,
        )
        (load_pages-Chain u precise size reply fuel _ after (loaded ++ here) there c' a
            (unfold load_page in (ask_lem u precise size reply cursor c a h).1) rest (omega arith)
          ∙ ap (λ l. some (ok (l, false))) (append_assoc loaded here there))
