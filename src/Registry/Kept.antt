-- ===== src/Registry/Kept.antt =====
-- app/services/channel_service.py: what the operations that delete links leave of the others.
use mathlib.Core.Path.{subst}
use tg_forwarder.Prelude.{
  ℕ, ◌≡◌, refl, sym, ◌∙◌, false, not, List, [], ◌∷◌, ◌++◌, map, ◌==◌, arith, keep, Bool-cases, inl,
  inr, ++_nil,
}
use tg_forwarder.Prelude.Chats.{ℤ}
use tg_forwarder.Registry.{SourceRow, TargetRow, LinkRow}
use tg_forwarder.Registry.Links.{target_links, is_in, linked_chats}
use tg_forwarder.Registry.Inserted.{exists-append}
use tg_forwarder.Registry.Subscribed.{sources_of, stays, made, is_in-absent}
use tg_forwarder.Registry.Removed.{rest, unlinked, get-rest}
use tg_forwarder.Registry.Primary.{
  Shows, Primary, Pending, chats, chats-append, chats-stays, chats-made,
}
use tg_forwarder.Registry.Aligned.{Indexed}

-- The sources but one.
pub Primary-deleted :
    (linked linked' : ℕ → List ℤ) (j : ℕ) (sources : List SourceRow)
    → ((i : ℕ) → (i == j) ≡ false → linked' i ≡ linked i)
    → Primary linked sources
    → Primary linked' (keep (λ (s : SourceRow). not (s.id == j)) sources)
Primary-deleted linked linked' j [] same h = tt
Primary-deleted linked linked' j (s ∷ ss) same h = elim (Bool-cases (s.id == j)) [
  | inl b ↦ rw b (Primary-deleted linked linked' j ss same h.1)
  | inr b ↦ rw b (
    subst (λ cs. Shows cs s.target_channel_id) (sym (same s.id b)) h.0,
    Primary-deleted linked linked' j ss same h.1,
  )
]

-- The sources whose links stay need not be aligned.
pub Primary-Pending :
    (targets : List TargetRow) (links : List LinkRow) (linked : ℕ → List ℤ) (is : List ℕ)
    (sources : List SourceRow)
    → ((i : ℕ) → is_in is i ≡ false → chats targets links i ≡ linked i)
    → Primary linked sources
    → Pending targets links is sources
Primary-Pending targets links linked is [] same h = tt
Primary-Pending targets links linked is (s ∷ ss) same h = (
  λ out. subst (λ cs. Shows cs s.target_channel_id) (sym (same s.id out)) h.0,
  Primary-Pending targets links linked is ss same h.1,
)

pub Indexed-rest :
    (target_id : ℕ) (targets ts : List TargetRow)
    → Indexed targets ts
    → Indexed (rest target_id targets) (rest target_id ts)
Indexed-rest target_id targets [] h = tt
Indexed-rest target_id targets (t ∷ ts) h = elim (Bool-cases (t.id == target_id)) [
  | inl b ↦ rw b (Indexed-rest target_id targets ts h.1)
  | inr b ↦ rw b (get-rest target_id t.id targets b ∙ h.0, Indexed-rest target_id targets ts h.1)
]

-- A source without a link to the target keeps its chats.
pub chats-unlinked :
    (target_id : ℕ) (targets : List TargetRow) (i : ℕ) (links : List LinkRow)
    → is_in (sources_of target_id links) i ≡ false
    → chats (rest target_id targets) (unlinked target_id links) i ≡ chats targets links i
unfolding linked_chats
chats-unlinked target_id targets i [] out = refl
chats-unlinked target_id targets i (l ∷ ls) out = elim (Bool-cases (l.target_id == target_id)) [
  | inl b ↦
      let ih = chats-unlinked target_id targets i ls (ground arith) in
      let other : (l.source_id == i) ≡ false = ground arith in ground (arith, ih)
  | inr b ↦
      let ih = chats-unlinked target_id targets i ls (ground arith) in
      let same = get-rest target_id l.target_id targets b in ground (arith, ih, same)
]

-- A source that `set_target_sources` neither names nor finds linked keeps its chats.
pub chats-target_links :
    (target_id : ℕ) (wanted : List ℕ) (targets : List TargetRow) (links : List LinkRow) (i : ℕ)
    → is_in (wanted ++ sources_of target_id links) i ≡ false
    → chats targets (target_links target_id wanted links) i ≡ chats targets links i
unfolding target_links
chats-target_links target_id wanted targets links i out =
    let there = sources_of target_id links in
    let both = exists-append (λ j. i == j) wanted there in
    let in_new = is_in-absent target_id wanted there i wanted in
    let new = keep (λ j. not (is_in there j)) wanted in
    chats-append targets i (keep (stays target_id wanted) links) (map (made target_id wanted) new)
    ∙ rw
        (
          chats-stays targets target_id wanted i links (ground arith),
          chats-made targets target_id i new (ground arith),
        )
        (++_nil (chats targets links i))
