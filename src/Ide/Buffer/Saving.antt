-- ===== src/Ide/Buffer/Saving.antt =====
-- A buffer through its file (poc-ide/src/buffer.rs).
use progressive_lsp.Base.{◌≡◌, Text, arith, ok, All}
use progressive_lsp.Base.Utf8.{as_bytes, from_utf8-as_bytes, IsScalar}
use progressive_lsp.Ide.Ports.{FsPort, Rope}
use progressive_lsp.Ide.Buffer.{OpenBuffer, clean, collapsed, read_text, load, save}

module _ (fs : FsPort) where
  read_text-as_bytes :
      (files : fs.Files) (path s : Text)
      → All IsScalar s
      → fs.read files path ≡ ok (as_bytes s)
      → read_text fs files path ≡ ok s
  unfolding read_text
  read_text-as_bytes files path s chars reads = ground (arith, from_utf8-as_bytes s chars)

-- If the file can be written, and is afterwards what was written, under a canonical path, a save
-- clears the dirty flag, and loading the path gives a clean buffer of the same text, with the
-- caret at its start.
load-save :
    {rope : Rope} (fs : FsPort) (files files' : fs.Files) (b : OpenBuffer rope)
    → All IsScalar (rope.to_string b.text)
    → fs.write files b.path (as_bytes (rope.to_string b.text)) ≡ ok files'
    → fs.read files' b.path ≡ ok (as_bytes (rope.to_string b.text))
    → fs.canonicalize files' b.path ≡ ok b.path
    → (save fs files b ≡ (files', record b { dirty = clean }, ok tt))
      × (load {rope = rope} fs files' b.path
          ≡ ok (record {
            path = b.path;
            text = rope.from_str (rope.to_string b.text);
            selection = collapsed 0;
            dirty = clean;
            generation = 0;
          }))
unfolding save load
load-save {rope} fs files files' b chars writes reads canonical =
    let e = read_text-as_bytes fs files' b.path (rope.to_string b.text) chars reads in
    (ground (arith, writes), ground (arith, canonical, e))
