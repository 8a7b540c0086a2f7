-- ===== src/Host.antt =====
-- The host that a job runs on. What the repository does not implement is a parameter: the programs
-- that os/exec starts, the clock and the context, the MinIO server and the parser of URLs. The files
-- are a map from paths to contents, with the errors that the operating system may report.
use libvirt_volume_provision.Base.{ℕ, List, [], ◌∷◌, ◌++◌, Option, ℤ, Bool, if◌then◌else◌}
use libvirt_volume_provision.Text.{Text, text_eq}
use libvirt_volume_provision.Act.{Result, ok, Act}
use libvirt_volume_provision.Types.{Percent}
use libvirt_volume_provision.Job.{Job, update_progress}

-- What a program leaves: whether it exited with status 0, its combined output, and the text of the
-- error if it did not.
pub record CmdResult : Type 0 where
  pub success : Bool
  pub output : Text
  pub error : Text

pub record Url : Type 0 where
  pub scheme : Text
  pub host : Text
  pub path : Text

-- What successive calls of Read return: bytes with no error, bytes with io.EOF, or bytes with another
-- error. A reader that never ends is not modelled.
pub data Reads : Type 0 where
  chunk : Text → Reads → Reads
  eof : Text → Reads
  broken : Text → Text → Reads

pub record System (W : Type 0) : Type 0 where
  -- exec.Command(argv...).CombinedOutput()
  pub exec : List Text → W → CmdResult × W
  -- the `select` on time.After(d) and ctx.Done(): the context's error if that is chosen
  pub wait : ℤ → W → Option Text × W
  -- whether ctx.Done() is ready in a round of the copy loop
  pub ctx_done : W → ℕ → Option Text
  -- an error of a write in a round of the copy loop, with the part that was written
  pub write_error : W → ℕ → Option (Text × Text)
  pub now : W → ℕ
  pub parse_url : Text → Result Url
  -- StatObject: the size
  pub stat_object : Text → Text → W → Result ℤ × W
  pub get_object : Text → Text → W → Result Reads × W

pub record Disk : Type 0 where
  pub files : Text → Option Text
  pub mkdir_error : Option Text
  -- errors of os.Stat other than that the file does not exist
  pub stat_error : Text → Option Text
  pub create_error : Text → Option Text
  -- errors of os.WriteFile, each with what the path holds afterwards
  pub write_fault : Text → Option (Text × Option Text)
  -- errors of os.Remove other than that the file does not exist
  pub remove_error : Text → Option Text

-- What a job's goroutine reads and writes; `ran` holds the command lines, the oldest first.
pub record Host (W : Type 0) : Type 0 where
  pub world : W
  pub ran : List (List Text)
  pub disk : Disk
  pub job : Job

abbrev pub store_file : Text → Option Text → Disk → Disk
store_file p content d = record d { files = λ q. if text_eq p q then content else d.files q }

module _ {W : Type 0} (sys : System W) where
  -- Runs a program and notes its command line.
  unfoldable pub run : List Text → Act (Host W) CmdResult
  run argv h =
      let (r, w) = sys.exec argv h.world in (ok r, record h { world = w; ran = h.ran ++ argv ∷ [] })

  unfoldable pub wait_host : ℤ → Host W → Option Text × Host W
  wait_host d h = let (o, w) = sys.wait d h.world in (o, record h { world = w })

  -- updater.UpdateProgress(...)
  unfoldable pub report : Text → Percent → ℤ → ℤ → Act (Host W) Unit
  unfolding update_progress
  report stage percent processed total h = (
    ok tt,
    record h { job = update_progress (sys.now h.world) stage percent processed total h.job },
  )
