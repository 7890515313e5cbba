-- ===== src/Registry/Aligned.antt =====
-- app/services/channel_service.py: the operations on links in any order, and what they keep.
use mathlib.Core.Path.{subst}
use tg_forwarder.Prelude.{
  ℕ, ◌≡◌, refl, sym, ◌∙◌, Bool, ◌&&◌, some, List, [], ◌∷◌, ◌++◌, ◌==◌, if◌then◌else◌, All,
  Bool-cases, Option-cases, inl, inr, ++_nil, ==-refl,
}
use tg_forwarder.Prelude.Chats.{ℤ, pos, same_chat}
use tg_forwarder.Message.{TargetBackend}
use tg_forwarder.Registry.{
  TargetRow, Tables, first, is_target, get_target_by_id, get_target_by_chat_id, same_backend,
}
use tg_forwarder.Registry.Replace.{resolve_ref, resolve_targets, links_of, chats_of, first_chat}
use tg_forwarder.Registry.Inserted.{replaced, others}
use tg_forwarder.Registry.Primary.{
  Shows, first_chat-Shows, Primary, Primary-set, chats, chats-append, chats-others, chats-links_of,
}

-- The ids of the targets are distinct: each one is found by its id.
abbrev pub Indexed : List TargetRow → List TargetRow → Type 0
Indexed targets ts = All (λ (t : TargetRow). get_target_by_id (pos t.id) targets ≡ some t) ts

pub record IsAligned (db : Tables) : Type 0 where
  pub indexed : Indexed db.targets db.targets
  pub primary : Primary (chats db.targets db.links) db.sources

some_injective {ℓ} : {A : Type ℓ} {a b : A} → some a ≡ some b → a ≡ b
some_injective {A} {a} {b} h = cc

first-All {ℓ κ} :
    {A : Type ℓ} (P : A → Type κ) (p : A → Bool) (xs : List A) (x : A)
    → All P xs
    → first p xs ≡ some x
    → P x
first-All P p [] x h e = absurd (cc)
first-All P p (y ∷ ys) x h e = elim (Bool-cases (p y)) [
  | inl b ↦ let same : some y ≡ some x = sym (rw b refl) ∙ e in subst P (some_injective same) h.0
  | inr b ↦ first-All P p ys x h.1 (sym (rw b refl) ∙ e)
]

module _ (targets : List TargetRow) (indexed : Indexed targets targets) where
  resolve_ref-Indexed :
      (ref : ℤ) (t : TargetRow)
      → resolve_ref targets ref ≡ some t
      → get_target_by_id (pos t.id) targets ≡ some t
  unfolding resolve_ref get_target_by_id get_target_by_chat_id
  resolve_ref-Indexed ref t e =
      let P = λ (q : TargetRow). get_target_by_id (pos q.id) targets ≡ some q in
      elim (Option-cases (get_target_by_id ref targets)) [
        | inl e0 ↦
            let k = rw (e0, resolve_ref) at e in
            first-All P
              (λ q. same_chat q.chat_id ref && same_backend q.target_backend TargetBackend.telegram)
              targets t indexed k
        | inr (q, e0) ↦
            let k = rw (e0, resolve_ref) at e in
            first-All P (is_target ref) targets t indexed (e0 ∙ k)
      ]

  pub resolve_targets-Indexed : (refs : List ℤ) → Indexed targets (resolve_targets targets refs)
  unfolding resolve_targets
  resolve_targets-Indexed [] = tt
  resolve_targets-Indexed (ref ∷ refs) = elim (Option-cases (resolve_ref targets ref)) [
    | inl e ↦ rw e (resolve_targets-Indexed refs)
    | inr (t, e) ↦ rw e (resolve_ref-Indexed ref t e, resolve_targets-Indexed refs)
  ]

-- The links of one source are replaced.
pub replaced-IsAligned :
    (i : ℕ) (found : List TargetRow) (db : Tables)
    → Indexed db.targets found
    → IsAligned db
    → IsAligned (replaced i found db)
replaced-IsAligned i found db rows h =
    let links = others i db.links ++ links_of i found in
    let chats_there : (j : ℕ)
        → chats db.targets links j
          ≡ (if j == i then [] else chats db.targets db.links j)
            ++ (if j == i then chats_of found else []) =
      λ j.
        chats-append db.targets j (others i db.links) (links_of i found)
        ∙ rw (chats-others db.targets j i db.links, chats-links_of db.targets j i found rows)
            refl in
    record {
      indexed = h.indexed;
      primary =
          Primary-set (chats db.targets db.links) (chats db.targets links) i
            (first_chat (chats_of found)) db.sources
            (λ j other. chats_there j ∙ rw other (++_nil (chats db.targets db.links j)))
            (subst (λ cs. Shows cs (first_chat (chats_of found)))
              (sym (chats_there i ∙ rw (==-refl i) refl)) (first_chat-Shows (chats_of found)))
            h.primary;
    }
