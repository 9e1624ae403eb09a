-- ===== src/Mp4/Examples.antt =====
-- Tests of the MP4 muxer's model, and its theorems applied to small inputs.
mod Payloads
mod Clips
mod Data
mod Headers
