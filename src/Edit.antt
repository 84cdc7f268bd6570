-- ===== src/Edit.antt =====
-- internal/edit: the edits of the configuration file, as splices of its lines, and the commands that
-- make them. The parsed tree of the file comes from gopkg.in/yaml.v3.
pub mod Last
pub mod Node
pub mod Result
pub mod Splice
pub mod Tweaks
pub mod Amend
pub mod Commands
pub mod Notices
