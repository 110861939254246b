-- ===== src/MediaImport.antt =====
-- The import of finished downloads into the media library: mediaimport/.
pub mod Arr
pub mod Http
pub mod Reconcile
