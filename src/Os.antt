-- ===== src/Os.antt =====
-- The operating system as the program uses it (package os, x/sys/unix): an interface over an
-- unknown state of the file system, with what the program relies on.
pub mod Memory
pub mod Patches
pub mod Bytes
use mhserver.Common.{
  ℕ, ◌+◌, ◌-◌, ◌≤◌, ◌<◌, ◌≡◌, ◌⊎◌, ◌≢◌, Bool, Option, none, some, List, [], ◌∷◌, ◌++◌, Text, length,
  take, drop, replicate, if◌then◌else◌, ltb, leb, ◌&&◌,
}
use mhserver.Common.Int.{ℤ, pos, negsuc}

-- What `errors.Is` tells apart, and `io.EOF`.
pub data OsError : Type 0 where
  not_exist exist eof other : OsError

pub data OsResult (A : Type 0) : Type 0 where
  got : A → OsResult A
  failed : OsError → OsResult A

pub record Statfs : Type 0 where
  pub bavail : ℕ
  pub bsize : ℕ

pub record DirEntry : Type 0 where
  pub name : Text
  pub is_dir : Bool
  -- `Info()`: size and modification time in seconds, if it is available.
  pub info : Option (ℕ × ℕ)

pub record Os : Type 1 where
  pub World : Type 0
  pub Handle : Type 0
  -- os.OpenFile(path, O_RDONLY, …) and os.OpenFile(path, O_CREATE|O_RDWR, …)
  pub open_rdonly : Text → World → World × OsResult Handle
  pub open_create : Text → World → World × OsResult Handle
  pub stat_size : Handle → World → OsResult ℕ
  -- ReadAt of a number of bytes at an offset: the bytes that were read, and the error.
  pub read_at : Handle → ℕ → ℤ → World → List ℕ × Option OsError
  pub write_at : Handle → List ℕ → ℤ → World → World × Option OsError
  pub close : Handle → World → World
  pub statfs : Text → World → OsResult Statfs
  pub mkdir_all : Text → World → World × Option OsError
  pub remove_all : Text → World → World × Option OsError
  pub read_dir : Text → World → OsResult (List DirEntry)

-- The contents of a file after a write at an offset: a gap is filled with zeros.
abbrev pub patch : List ℕ → ℕ → List ℕ → List ℕ
patch old offset new =
    (take offset old ++ replicate (offset - length old) 0)
    ++ (new ++ drop (offset + length new) old)

-- The documented behaviour of ReadAt and WriteAt, told by what an open file holds. An error of the
-- device is always possible, and then nothing is said. A handle is readable or writable from its
-- opening on until it is closed.
pub record HasFiles (os : Os) : Type 1 where
  pub contents : os.Handle → os.World → List ℕ
  pub IsReadable : os.Handle → os.World → Type 0
  pub IsWritable : os.Handle → os.World → Type 0
  pub read_full :
      (h : os.Handle) (n offset : ℕ) (w : os.World) (bytes : List ℕ)
      → os.read_at h n (pos offset) w ≡ (bytes, none)
      → (bytes ≡ take n (drop offset (contents h w))) × (length bytes ≡ n)
  pub read_short :
      (h : os.Handle) (n offset : ℕ) (w : os.World) (bytes : List ℕ)
      → os.read_at h n (pos offset) w ≡ (bytes, some eof)
      → (bytes ≡ take n (drop offset (contents h w))) × (length bytes < n)
  pub written :
      (h : os.Handle) (bytes : List ℕ) (offset : ℕ) (w w' : os.World)
      → 0 < length bytes
      → os.write_at h bytes (pos offset) w ≡ (w', none)
      → contents h w' ≡ patch (contents h w) offset bytes
  pub write_negative :
      (h : os.Handle) (bytes : List ℕ) (k : ℕ) (w : os.World)
      → os.write_at h bytes (negsuc k) w ≡ (w, some other)

-- A device that does not fail: what is opened for it can be read and written, reads end at most at the
-- end of the file, and writes succeed up to the size of the largest file, and leave the handle open.
pub record IsWorking (os : Os) (files : HasFiles os) : Type 0 where
  pub largest : ℕ
  pub opens_rdonly :
      (path : Text) (h : os.Handle) (w w' : os.World)
      → os.open_rdonly path w ≡ (w', got h)
      → files.IsReadable h w'
  pub opens_create :
      (path : Text) (h : os.Handle) (w w' : os.World)
      → os.open_create path w ≡ (w', got h)
      → files.IsReadable h w' × files.IsWritable h w'
  pub reads :
      (h : os.Handle) (n offset : ℕ) (w : os.World)
      → files.IsReadable h w
      → (bytes : List ℕ) × ((os.read_at h n (pos offset) w ≡ (bytes, none))
          ⊎ (os.read_at h n (pos offset) w ≡ (bytes, some eof)))
  pub writes :
      (h : os.Handle) (bytes : List ℕ) (offset : ℕ) (w : os.World)
      → files.IsReadable h w × files.IsWritable h w
      → offset + length bytes ≤ largest
      → (w' : os.World) × (os.write_at h bytes (pos offset) w ≡ (w', none))
        × (files.IsReadable h w' × files.IsWritable h w')
