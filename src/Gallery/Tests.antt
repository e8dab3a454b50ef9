-- ===== src/Gallery/Tests.antt =====
-- Runs of crates/korg-core/src/repo/attachments.rs.
use korg.Base.{
  ℕ, String, List, [], ◌∷◌, Option, none, some, map, retain, contains, blank, is_whitespace, ◌≡◌,
  refl,
}
use korg.Core.Registry.{spec}
use korg.Core.Graph.{Node, node_kind, node_project, node_row}
use korg.Core.Relate.{
  relate, with_spec, with_kinds, mismatched, project_check, soak_check, store, write, upsert,
  edge_action,
}
use korg.Img.Upload.{ext_for_mime}
use korg.Gallery.{
  NewAttachment, Attachment, Gallery, Outcome, made, fault, image_owner, check_upload,
  store_attachment, resolve_owner, create_attachment, adopt, attach_attachment, delete_nodes,
  expired, sweep_pending_attachments, delete_attachment,
}
use korg.Gallery.Owned.{Owned}
use korg.Gallery.Kept.{untended, swept, deleted, Tended-Owned}

abbrev image : ℕ → Attachment
image id = record {
  node_id = id;
  filename = "shot.png";
  mime = "image/png";
  byte_size = 9;
  width = 3;
  height = 3;
  content_hash = "";
  tags = [];
  created = 10;
}

abbrev upload : Option ℕ → NewAttachment
upload owner = record {
  filename = "shot.png";
  mime = "image/png";
  byte_size = 9;
  width = 3;
  height = 3;
  content_hash = "";
  variants = [];
  owner_node_id = owner;
  tags = [];
}

abbrev node : ℕ → String → Node
node id kind = record { id = id; kind = kind; project = some "korg" }

-- A work item and two images that nobody owns.
abbrev gallery : Gallery
gallery = record {
  graph = record {
    nodes = node 1 "workitem" ∷ (node 2 "attachment" ∷ (node 3 "attachment" ∷ []));
    work_items = [];
    proposals = [];
    programs = [];
    edges = [];
    transitions = [];
    activity = [];
    next_node = 4;
    next_edge = 1;
  };
  attachments = image 2 ∷ (image 3 ∷ []);
  variants = [];
}

abbrev with_owner : Gallery
with_owner = record gallery {
  graph = record (gallery.graph) {
    edges =
        record {
          id = 1;
          left_id = 1;
          right_id = 2;
          label = "has_attachment";
          origin = none;
          rank = none;
        }
        ∷ [];
    next_edge = 2;
  };
}

abbrev left_over : Outcome Gallery → List ℕ
left_over (fault why) = []
left_over (made s) = map (λ a. a.node_id) (sweep_pending_attachments 1000 24 s).0.attachments

abbrev then_attach : ℕ → ℕ → Outcome Gallery → Outcome Gallery
then_attach id owner (fault why) = fault why
then_attach id owner (made s) = attach_attachment id owner s

-- An upload to an image is refused, but an image can be attached to one: two images that own each other
-- are never swept.
image_owns_image :
    (create_attachment 20 (upload (some 2)) gallery ≡ fault (image_owner 2))
    × (left_over (made gallery) ≡ [])
    × (left_over (then_attach 2 3 (attach_attachment 3 2 gallery)) ≡ 2 ∷ (3 ∷ []))
unfolding create_attachment check_upload store_attachment resolve_owner ext_for_mime
    attach_attachment adopt relate with_spec with_kinds mismatched project_check soak_check store
    write upsert edge_action spec node_kind node_project node_row blank sweep_pending_attachments
    delete_nodes expired retain contains is_whitespace
image_owns_image = (refl, refl, refl)

Tended-Owned_example :
    Owned 1 2 (delete_attachment 3 (sweep_pending_attachments 1000 24 with_owner).0).0
Tended-Owned_example =
    Tended-Owned (record { linked = refl; stored = refl; no_image = refl; old = refl })
      (deleted 3 (swept 1000 24 untended) refl refl)
