-- ===== src/Registry/Primary.antt =====
-- app/services/channel_service.py: the column `target_channel_id`, which each operation on links
-- keeps aligned with a linked target.
use mathlib.Core.Path.{subst}
use tg_forwarder.Prelude.{
  true, none, Option, exists, ℕ, ◌≡◌, refl, sym, ◌∙◌, false, some, List, [], ◌∷◌, ◌++◌, map, ◌==◌,
  arith, if◌then◌else◌, keep, All, Bool-cases, inl, inr, ==→eq,
}
use tg_forwarder.Prelude.Chats.{ℤ, pos, same_chat, same_chat_refl}
use tg_forwarder.Registry.{SourceRow, TargetRow, LinkRow, get_target_by_id, change_source}
use tg_forwarder.Registry.Links.{is_in, linked_chats, align}
use tg_forwarder.Registry.Replace.{first_chat, set_primary, links_of, chats_of}
use tg_forwarder.Registry.Inserted.{others}
use tg_forwarder.Registry.Subscribed.{sources_of, stays, made}

-- The column names one of the chats that a source is linked to; it is empty when there is none.
abbrev pub Shows : List ℤ → Option ℤ → Type 0
Shows chats none = chats ≡ []
Shows chats (some c) = exists (same_chat c) chats ≡ true

abbrev pub Primary : (ℕ → List ℤ) → List SourceRow → Type 0
Primary linked sources = All (λ (s : SourceRow). Shows (linked s.id) s.target_channel_id) sources

pub first_chat-Shows : (cs : List ℤ) → Shows cs (first_chat cs)
first_chat-Shows [] = refl
first_chat-Shows (c ∷ cs) = rw (same_chat_refl c) refl

-- The database gives the same rows, in an order of its own.
abbrev pub Reorders : (List ℤ → List ℤ) → Type 0
Reorders order = (cs : List ℤ) (c : ℤ) → exists (same_chat c) (order cs) ≡ exists (same_chat c) cs

pub Reorders-Shows :
    (order : List ℤ → List ℤ) → Reorders order → (cs : List ℤ) → Shows cs (first_chat (order cs))
Reorders-Shows order same cs = picked cs (order cs) (same cs)
  where
    picked :
        (xs ys : List ℤ)
        → ((c : ℤ) → exists (same_chat c) ys ≡ exists (same_chat c) xs)
        → Shows xs (first_chat ys)
    picked [] [] h = refl
    picked (x ∷ xs) [] h = absurd (let k = h x in let own = same_chat_refl x in ground arith)
    picked xs (y ∷ ys) h = sym (h y) ∙ rw (same_chat_refl y) refl

-- One source is set, and the others keep their links.
pub Primary-set :
    (linked linked' : ℕ → List ℤ) (j : ℕ) (v : Option ℤ) (sources : List SourceRow)
    → ((i : ℕ) → (i == j) ≡ false → linked' i ≡ linked i)
    → Shows (linked' j) v
    → Primary linked sources
    → Primary linked' (change_source j (set_primary v) sources)
unfolding change_source
Primary-set linked linked' j v [] same own h = tt
Primary-set linked linked' j v (s ∷ ss) same own h = elim (Bool-cases (s.id == j)) [
  | inl b ↦ rw b (
    subst (λ i. Shows (linked' i) v) (sym (==→eq s.id j b)) own,
    Primary-set linked linked' j v ss same own h.1,
  )
  | inr b ↦ rw b (
    subst (λ cs. Shows cs s.target_channel_id) (sym (same s.id b)) h.0,
    Primary-set linked linked' j v ss same own h.1,
  )
]

module _ (targets : List TargetRow) where
  abbrev pub chats : List LinkRow → ℕ → List ℤ
  chats links i = linked_chats targets i links

  -- The sources that are not to be aligned are right already.
  abbrev pub Pending : List LinkRow → List ℕ → List SourceRow → Type 0
  Pending links is sources =
      All (λ (s : SourceRow). is_in is s.id ≡ false → Shows (chats links s.id) s.target_channel_id)
        sources

  Pending-set :
      (links : List LinkRow) (i : ℕ) (is : List ℕ) (v : Option ℤ) (sources : List SourceRow)
      → Shows (chats links i) v
      → Pending links (i ∷ is) sources
      → Pending links is (change_source i (set_primary v) sources)
  unfolding change_source
  Pending-set links i is v [] own h = tt
  Pending-set links i is v (s ∷ ss) own h = elim (Bool-cases (s.id == i)) [
    | inl b ↦ rw b (
      λ _. subst (λ j. Shows (chats links j) v) (sym (==→eq s.id i b)) own,
      Pending-set links i is v ss own h.1,
    )
    | inr b ↦ rw b (λ out. h.0 (ground arith), Pending-set links i is v ss own h.1)
  ]

  none-Pending :
      (links : List LinkRow) (sources : List SourceRow)
      → Pending links [] sources
      → Primary (chats links) sources
  none-Pending links [] h = tt
  none-Pending links (s ∷ ss) h = (h.0 refl, none-Pending links ss h.1)

  pub align-Primary :
      (order : List ℤ → List ℤ) (links : List LinkRow) (is : List ℕ) (sources : List SourceRow)
      → Reorders order
      → Pending links is sources
      → Primary (chats links) (align order targets links is sources)
  unfolding align
  align-Primary order links [] sources r h = none-Pending links sources h
  align-Primary order links (i ∷ is) sources r h =
      let v = first_chat (order (chats links i)) in
      align-Primary order links is (change_source i (set_primary v) sources) r
        (Pending-set links i is v sources (Reorders-Shows order r (chats links i)) h)

  pub chats-append : (i : ℕ) (xs ys : List LinkRow) → chats (xs ++ ys) i ≡ chats xs i ++ chats ys i
  unfolding linked_chats
  chats-append i [] ys = refl
  chats-append i (l ∷ ls) ys = ground (arith, chats-append i ls ys)

  pub chats-others :
      (i j : ℕ) (links : List LinkRow)
      → chats (others j links) i ≡ (if i == j then [] else chats links i)
  unfolding linked_chats
  chats-others i j [] = ground arith
  chats-others i j (l ∷ ls) = ground (arith, chats-others i j ls)

  pub chats-links_of :
      (i j : ℕ) (ts : List TargetRow)
      → All (λ (t : TargetRow). get_target_by_id (pos t.id) targets ≡ some t) ts
      → chats (links_of j ts) i ≡ (if i == j then chats_of ts else [])
  unfolding linked_chats
  chats-links_of i j [] h = ground arith
  chats-links_of i j (t ∷ ts) h = rw h.0 (ground (arith, chats-links_of i j ts h.1))

  -- `set_target_sources` leaves the links of a source that it does not name and did not have.
  pub chats-stays :
      (target_id : ℕ) (wanted : List ℕ) (i : ℕ) (links : List LinkRow)
      → is_in (sources_of target_id links) i ≡ false
      → chats (keep (stays target_id wanted) links) i ≡ chats links i
  unfolding linked_chats
  chats-stays target_id wanted i [] out = refl
  chats-stays target_id wanted i (l ∷ ls) out = elim (Bool-cases (l.target_id == target_id)) [
    | inl b ↦
        let ih = chats-stays target_id wanted i ls (ground arith) in
        let other : (l.source_id == i) ≡ false = ground arith in ground (arith, ih)
    | inr b ↦ let ih = chats-stays target_id wanted i ls (ground arith) in ground (arith, ih)
  ]

  pub chats-made :
      (target_id : ℕ) (i : ℕ) (is : List ℕ)
      → is_in is i ≡ false
      → chats (map (made target_id []) is) i ≡ []
  unfolding linked_chats
  chats-made target_id i [] out = refl
  chats-made target_id i (j ∷ js) out = ground (arith, chats-made target_id i js)
