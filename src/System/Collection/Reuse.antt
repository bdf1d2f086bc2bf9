-- ===== src/System/Collection/Reuse.antt =====
-- A file that is deleted and created again.
use google_file_system.Prelude.{String, ◌≡◌, ◌∙◌, nat_eq, string_eq, arith}
use google_file_system.Files.{create_file_handler, delete_file_handler}
use google_file_system.GarbageCollection.{soft_delete}
use google_file_system.Metadata.{Time}
use google_file_system.State.{Master}
use google_file_system.System.Ownership.{chunks_of}

create-chunks_of :
    (p q : String) (t u : Time) (m : Master)
    → chunks_of (create_file_handler p t u m).1.store q ≡ chunks_of m.store q
unfolding create_file_handler
create-chunks_of p q t u m = ground arith

delete-chunks_of :
    (p q : String) (t u w : Time) (m : Master)
    → chunks_of (delete_file_handler p t u w m).1.store q ≡ chunks_of m.store q
unfolding delete_file_handler soft_delete
delete-chunks_of p q t u w m = ground arith

-- A file that is deleted and then created again has the chunks that it had before it was deleted.
pub chunks_of-recreated :
    (p : String) (t u w x y : Time) (m : Master)
    → let deleted = (delete_file_handler p t u w m).1 in
      chunks_of (create_file_handler p x y deleted).1.store p ≡ chunks_of m.store p
chunks_of-recreated p t u w x y m =
    create-chunks_of p p x y (delete_file_handler p t u w m).1 ∙ delete-chunks_of p p t u w m
