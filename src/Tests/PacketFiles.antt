-- ===== src/Tests/PacketFiles.antt =====
-- A witness on a packet of one file.
use diffdossier.Prelude.{String, false, [], ◌∷◌, Outcome, ok, get, put, has_key, ◌≡◌, refl}
use diffdossier.Digests.{tagged}
use diffdossier.Planner.{Task}
use diffdossier.Packets.{
  FileReference, Packet, review_prompt, add_blob, add_files, materialize, AreGenuine, AreCarried,
  materialize-AreCarried,
}
use diffdossier.Tests.Encoders.{sha}

abbrev file : FileReference
file = record {
  path_bytes_base64 = "YQ==";
  display_path = "a";
  scope = "staged";
  current_blob = "sha256:text";
  previous_blob = "";
  required_coverage = "fully_reviewed";
  full_read_required = false;
}

abbrev task : Task
task = record {
  schema_version = "1.0";
  id = "task";
  snapshot_id = "snap";
  risk = "L1";
  contract_types = [];
  paths = [];
  dependency_tasks = [];
  total_bytes = 4;
  oversized = false;
  needs_confirmation = false;
  required_passes = 1;
  perspectives = [];
}

abbrev packet : Packet
packet = record {
  snapshot_id = "snap";
  task_id = "task";
  task_input_hash = "";
  data_class = "public_project";
  status = "ready_for_review";
  prompt = review_prompt;
  prompt_digest = "";
  task = task;
  files = file ∷ [];
  blobs = [];
  total_bytes = 4;
}

abbrev load : String → Outcome String
load digest = ok "text"

abbrev full : Packet
full = record packet { blobs = ("sha256:text", "text") ∷ [] }

packet-full : materialize sha load packet ≡ ok full
unfolding materialize add_files add_blob has_key get put tagged
packet-full = refl

materialize-AreCarried_example :
    AreCarried sha load full.blobs packet.files
    × AreGenuine sha load full.blobs
    × (record packet { blobs = full.blobs } ≡ full)
materialize-AreCarried_example = materialize-AreCarried sha load packet full packet-full
