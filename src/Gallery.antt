-- ===== src/Gallery.antt =====
-- crates/korg-core/src/repo/attachments.rs: images as rows, from the upload to the sweep. The rows of a
-- node and of its attachment are one here, but for the kind and the project of the node.
pub mod Owned
pub mod Kept
mod Tests
use korg.Base.{
  ℕ, suc, ◌+◌, ◌-◌, String, List, [], ◌∷◌, ◌++◌, Option, none, some, Bool, true, false, not, ◌&&◌,
  ◌||◌, ◌==◌, any, map, retain, nat_eq, ltb, leb, blank, is_some, if◌then◌else◌,
}
use korg.Core.Graph.{Node, Edge, Activity, Graph, Refusal, Result, ok, err, node_kind, node_project}
use korg.Core.Relate.{relate}
use korg.Img.Upload.{ext_for_mime}

pub record NewVariant : Type 0 where
  pub variant : String
  pub mime : String
  pub width : ℕ
  pub height : ℕ
  pub byte_size : ℕ

pub record NewAttachment : Type 0 where
  pub filename : String
  pub mime : String
  pub byte_size : ℕ
  pub width : ℕ
  pub height : ℕ
  pub content_hash : String
  pub variants : List NewVariant
  pub owner_node_id : Option ℕ
  pub tags : List String

pub record Attachment : Type 0 where
  pub node_id : ℕ
  pub filename : String
  pub mime : String
  pub byte_size : ℕ
  pub width : ℕ
  pub height : ℕ
  pub content_hash : String
  pub tags : List String
  pub created : ℕ

pub record VariantRow : Type 0 where
  pub node_id : ℕ
  pub variant : NewVariant

pub record Gallery : Type 0 where
  pub graph : Graph
  pub attachments : List Attachment
  pub variants : List VariantRow

pub data Fault : Type 0 where
  blank_filename no_extent : Fault
  unstored_type : String → Fault
  no_owner image_owner no_attachment : ℕ → Fault
  unrelated : Refusal → Fault

pub data Outcome (A : Type 0) : Type 0 where
  made : A → Outcome A
  fault : Fault → Outcome A

-- The owner of a new image: its id and its project.
unfoldable pub resolve_owner : Graph → Option ℕ → Outcome (Option String)
resolve_owner g none = made none
resolve_owner g (some owner) = elim (node_kind g owner) [
  | none ↦ fault (no_owner owner)
  | some kind ↦
      if kind == "attachment" then fault (image_owner owner) else elim (node_project g owner) [
        | none ↦ fault (no_owner owner)
        | some project ↦ made project
      ]
]

unfoldable pub link_owner : Option ℕ → ℕ → Graph → Graph
link_owner none id g = g
link_owner (some owner) id g = record g {
  edges =
      record {
        id = g.next_edge;
        left_id = owner;
        right_id = id;
        label = "has_attachment";
        origin = some "create_attachment";
        rank = none;
      }
      ∷ g.edges;
  next_edge = suc g.next_edge;
  activity =
      record {
        node_id = owner;
        action = "attached";
        other = some id;
        label = some "has_attachment";
      }
      ∷ g.activity;
}

unfoldable pub insert_attachment : ℕ → NewAttachment → Option String → Gallery → Gallery
insert_attachment now new project s =
    let id = s.graph.next_node in
    record {
      graph = link_owner new.owner_node_id id (record (s.graph) {
        nodes = record { id = id; kind = "attachment"; project = project } ∷ s.graph.nodes;
        next_node = suc id;
      });
      attachments =
          record {
            node_id = id;
            filename = new.filename;
            mime = new.mime;
            byte_size = new.byte_size;
            width = new.width;
            height = new.height;
            content_hash = new.content_hash;
            tags = new.tags;
            created = now;
          }
          ∷ s.attachments;
      variants = map (λ v. record { node_id = id; variant = v }) new.variants ++ s.variants;
    }

unfoldable pub check_upload : NewAttachment → Option Fault
check_upload new =
    if blank new.filename
    then some blank_filename
    else if not (is_some (ext_for_mime new.mime))
    then some (unstored_type new.mime)
    else if nat_eq new.byte_size 0 || nat_eq new.width 0 || nat_eq new.height 0
    then some no_extent
    else none

unfoldable pub store_attachment :
    ℕ → NewAttachment → Gallery → Outcome (Option String) → Outcome (Gallery × ℕ)
store_attachment now new s (fault why) = fault why
store_attachment now new s (made project) =
    made (insert_attachment now new project s, s.graph.next_node)

unfoldable pub create_attachment : ℕ → NewAttachment → Gallery → Outcome (Gallery × ℕ)
create_attachment now new s = elim (check_upload new) [
  | some why ↦ fault why
  | none ↦ store_attachment now new s (resolve_owner (s.graph) new.owner_node_id)
]

abbrev adopted : ℕ → Option String → Node → Node
adopted id project n =
    if nat_eq n.id id && not (is_some n.project) then record n { project = project } else n

abbrev project_or_null : Option (Option String) → Option String
project_or_null none = none
project_or_null (some project) = project

abbrev pub is_attachment : Option String → Bool
is_attachment none = false
is_attachment (some kind) = kind == "attachment"

unfoldable pub adopt : ℕ → ℕ → Gallery → Result (Graph × ℕ) → Outcome Gallery
adopt id owner s (err why) = fault (unrelated why)
adopt id owner s (ok (g, edge)) = made (record s {
  graph = record g { nodes = map (adopted id (project_or_null (node_project g owner))) g.nodes };
})

-- The edge is written by `relate`, before the project.
unfoldable pub attach_attachment : ℕ → ℕ → Gallery → Outcome Gallery
attach_attachment id owner s =
    if not (is_attachment (node_kind (s.graph) id))
    then fault (no_attachment id)
    else adopt id owner s
        (relate owner id "has_attachment" (some "attach_attachment") none (s.graph))

abbrev pub owns : ℕ → ℕ → Edge → Bool
owns owner id e = e.label == "has_attachment" && nat_eq e.left_id owner && nat_eq e.right_id id

-- Whether an edge says that somebody owns the image.
abbrev pub owned : List Edge → ℕ → Bool
owned edges id = any (λ e. e.label == "has_attachment" && nat_eq e.right_id id) edges

-- `DELETE FROM node`, with what goes with a node that a test marks.
unfoldable pub delete_nodes : (ℕ → Bool) → Gallery → Gallery
delete_nodes gone s = record s {
  graph = record (s.graph) {
    nodes = retain (λ n. not (gone n.id)) s.graph.nodes;
    edges = retain (λ e. not (gone e.left_id || gone e.right_id)) s.graph.edges;
    activity = retain (λ a. not (gone a.node_id)) s.graph.activity;
  };
  attachments = retain (λ a. not (gone a.node_id)) s.attachments;
  variants = retain (λ v. not (gone v.node_id)) s.variants;
}

unfoldable pub detached : ℕ → List Edge → List Activity
detached id [] = []
detached id (e ∷ es) =
    let rest = detached id es in
    if e.label == "has_attachment" && nat_eq e.right_id id
    then record {
      node_id = e.left_id;
      action = "detached";
      other = some id;
      label = some "has_attachment";
    }
      ∷ rest
    else rest

unfoldable pub delete_attachment : ℕ → Gallery → Gallery × Bool
delete_attachment id s =
    if is_attachment (node_kind (s.graph) id)
    then (
      delete_nodes (nat_eq id) (record s {
        graph = record (s.graph) { activity = detached id s.graph.edges ++ s.graph.activity };
      }),
      true,
    )
    else (s, false)

-- Whether the sweep takes an image.
unfoldable pub expired : ℕ → ℕ → Gallery → ℕ → Bool
expired now ttl s id =
    any (λ a. nat_eq a.node_id id && ltb (a.created + ttl) now) s.attachments
    && not (owned s.graph.edges id)

abbrev pub image_ids : List Attachment → List ℕ
image_ids images = map (λ a. a.node_id) images

-- With the ids that it takes.
unfoldable pub sweep_pending_attachments : ℕ → ℕ → Gallery → Gallery × List ℕ
sweep_pending_attachments now ttl s =
    (delete_nodes (expired now ttl s) s, retain (expired now ttl s) (image_ids s.attachments))
