-- ===== src/Gallery/Kept.antt =====
-- That an image with an owner is kept, for crates/korg-core/src/repo/attachments.rs.
use korg.Base.{
  ℕ, ◌+◌, String, List, Option, none, some, Bool, true, false, ◌&&◌, ◌==◌, any, nat_eq, ltb, ◌≡◌,
  refl, ap, ◌∙◌, arith, Bool-cases, Option-cases, inl, inr,
}
use korg.Core.Graph.{Activity, Result, Graph, ok, err, node_kind}
use korg.Core.Relate.{relate}
use korg.Gallery.{
  NewAttachment, Gallery, Outcome, made, fault, resolve_owner, link_owner, insert_attachment,
  check_upload, store_attachment, create_attachment, adopt, attach_attachment, is_attachment, owns,
  delete_nodes, delete_attachment, expired, sweep_pending_attachments,
}
use korg.Gallery.Owned.{
  Owned, Linked, relate-Linked, any-retain, any-retain_absent, any_weaker, none_stronger, same_mark,
}

made_inj : {A : Type 0} {a b : A} → made a ≡ made b → a ≡ b
made_inj h = cc

module _ {owner image : ℕ} {s : Gallery} (kept : Owned owner image s) where
  delete_nodes-Owned :
      (gone : ℕ → Bool)
      → gone owner ≡ false
      → gone image ≡ false
      → Owned owner image (delete_nodes gone s)
  unfolding delete_nodes
  delete_nodes-Owned gone spares spared = record {
    linked =
        any-retain (owns owner image) _ s.graph.edges
          (λ e hit. ground (arith, same_mark gone e.left_id owner, same_mark gone e.right_id image))
          kept.linked;
    stored =
        any-retain (λ a. nat_eq a.node_id image) _ s.attachments
          (λ a hit. ground (arith, same_mark gone a.node_id image)) kept.stored;
    no_image = any-retain_absent (λ a. nat_eq a.node_id owner) _ s.attachments kept.no_image;
    old = kept.old;
  }

  spared_image : (now ttl : ℕ) → expired now ttl s image ≡ false
  unfolding expired
  spared_image now ttl = ground (
    arith,
    any_weaker (owns owner image) (λ e. e.label == "has_attachment" && nat_eq e.right_id image)
        s.graph.edges (λ e hit. ground (arith, hit)) kept.linked,
  )

  spared_owner : (now ttl : ℕ) → expired now ttl s owner ≡ false
  unfolding expired
  spared_owner now ttl = ground (
    arith,
    none_stronger (λ a. nat_eq a.node_id owner && ltb (a.created + ttl) now)
        (λ a. nat_eq a.node_id owner) s.attachments (λ a hit. ground (arith, hit)) kept.no_image,
  )

  link_owner-edges :
      (new : Option ℕ) (id : ℕ) (g : Graph)
      → any (owns owner image) g.edges ≡ true
      → any (owns owner image) ((link_owner new id g).edges) ≡ true
  unfolding link_owner
  link_owner-edges none id g h = h
  link_owner-edges (some o) id g h = ground (arith, h)

  link_owner-next :
      (new : Option ℕ) (id : ℕ) (g : Graph) → (link_owner new id g).next_node ≡ g.next_node
  unfolding link_owner
  link_owner-next none id g = refl
  link_owner-next (some o) id g = refl

  insert_attachment-Owned :
      (now : ℕ) (new : NewAttachment) (project : Option String)
      → Owned owner image (insert_attachment now new project s)
  unfolding insert_attachment
  insert_attachment-Owned now new project = record {
    linked = link_owner-edges new.owner_node_id s.graph.next_node _ kept.linked;
    stored = ground (arith, kept.stored);
    no_image = ground (arith, kept.no_image, kept.old);
    old = rw (link_owner-next new.owner_node_id s.graph.next_node _) (ground (arith, kept.old));
  }

  store_attachment-Owned :
      (now : ℕ) (new : NewAttachment) (o : Outcome (Option String)) (r : Gallery × ℕ)
      → store_attachment now new s o ≡ made r
      → Owned owner image r.0
  unfolding store_attachment
  store_attachment-Owned now new (fault why) r h = cc
  store_attachment-Owned now new (made project) r h =
      rw (← made_inj h) (insert_attachment-Owned now new project)

  create_attachment-Owned :
      (now : ℕ) (new : NewAttachment) (r : Gallery × ℕ)
      → create_attachment now new s ≡ made r
      → Owned owner image r.0
  unfolding create_attachment
  create_attachment-Owned now new r h = elim (Option-cases (check_upload new)) [
    | inl fit ↦
        store_attachment-Owned now new (resolve_owner (s.graph) new.owner_node_id) r (ground arith)
    | inr (why, unfit) ↦ absurd (ground arith)
  ]

  adopt-Owned :
      (id by : ℕ) (o : Result (Graph × ℕ)) (s' : Gallery)
      → ((r : Graph × ℕ) → o ≡ ok r → Linked owner image (s.graph) r.0)
      → adopt id by s o ≡ made s'
      → Owned owner image s'
  unfolding adopt
  adopt-Owned id by (err why) s' links h = cc
  adopt-Owned id by (ok (g, edge)) s' links h = rw (← made_inj h) (record {
    linked = (links (g, edge) refl).0 kept.linked;
    stored = kept.stored;
    no_image = kept.no_image;
    old = ap (ltb owner) (links (g, edge) refl).1 ∙ kept.old;
  })

  attach_attachment-Owned :
      (id by : ℕ) (s' : Gallery) → attach_attachment id by s ≡ made s' → Owned owner image s'
  unfolding attach_attachment
  attach_attachment-Owned id by s' h =
      adopt-Owned id by (relate by id "has_attachment" (some "attach_attachment") none (s.graph)) s'
        (relate-Linked owner image by id (some "attach_attachment") (s.graph)) (ground arith)

  activity-Owned :
      (rows : List Activity)
      → Owned owner image (record s { graph = record (s.graph) { activity = rows } })
  activity-Owned rows = record {
    linked = kept.linked;
    stored = kept.stored;
    no_image = kept.no_image;
    old = kept.old;
  }

sweep-Owned :
    {owner image : ℕ} {s : Gallery}
    → Owned owner image s
    → (now ttl : ℕ) → Owned owner image (sweep_pending_attachments now ttl s).0
unfolding sweep_pending_attachments
sweep-Owned {s = s} kept now ttl =
    delete_nodes-Owned kept (expired now ttl s) (spared_owner kept now ttl)
      (spared_image kept now ttl)

delete_attachment-Owned :
    {owner image : ℕ} {s : Gallery}
    → Owned owner image s
    → (id : ℕ) → nat_eq id owner ≡ false
    → nat_eq id image ≡ false
    → Owned owner image (delete_attachment id s).0
unfolding delete_attachment
delete_attachment-Owned {s = s} kept id apart other =
    elim (Bool-cases (is_attachment (node_kind (s.graph) id))) [
      | inl there ↦
          rw (there, delete_attachment)
            (delete_nodes-Owned (activity-Owned kept _) (nat_eq id) apart other)
      | inr gone ↦ rw (gone, delete_attachment) kept
    ]

-- What happens to the images, the deletion of two nodes aside.
pub data Tended (owner image : ℕ) (s : Gallery) : Gallery → Type 0 where
  untended : Tended owner image s s
  uploaded :
      {s1 : Gallery} (now : ℕ) (new : NewAttachment) (r : Gallery × ℕ)
      → Tended owner image s s1
      → create_attachment now new s1 ≡ made r
      → Tended owner image s r.0
  attached :
      {s1 s2 : Gallery} (id by : ℕ)
      → Tended owner image s s1
      → attach_attachment id by s1 ≡ made s2
      → Tended owner image s s2
  swept :
      {s1 : Gallery} (now ttl : ℕ)
      → Tended owner image s s1
      → Tended owner image s (sweep_pending_attachments now ttl s1).0
  deleted :
      {s1 : Gallery} (id : ℕ)
      → Tended owner image s s1
      → nat_eq id owner ≡ false
      → nat_eq id image ≡ false
      → Tended owner image s (delete_attachment id s1).0

-- Whatever is uploaded, attached, deleted and swept at any times, an image that a node owns stays,
-- and the node owns it, until one of the two is deleted; where the owner is itself no image.
pub Tended-Owned :
    {owner image : ℕ} {s s' : Gallery}
    → Owned owner image s
    → Tended owner image s s'
    → Owned owner image s'
Tended-Owned kept untended = kept
Tended-Owned kept (uploaded now new r past done) =
    create_attachment-Owned (Tended-Owned kept past) now new r done
Tended-Owned kept (attached id by past done) =
    attach_attachment-Owned (Tended-Owned kept past) id by _ done
Tended-Owned kept (swept now ttl past) = sweep-Owned (Tended-Owned kept past) now ttl
Tended-Owned kept (deleted id past apart other) =
    delete_attachment-Owned (Tended-Owned kept past) id apart other
