-- ===== src/Flv/Runs.antt =====
-- Runs of the FLV headers, the muxer and the demuxer.
use xiu.Prelude.{◌≡◌, [], ◌∷◌, ◌++◌, ◌||◌, ◌==◌, if◌then◌else◌, ok, arith}
use xiu.Prelude.Words.{Bytes}
use xiu.Flv.TagHeader.{
  AudioTagHeader, aac, unmarshal_audio, marshal_audio, VideoTagHeader, h264, hevc, sign_extend,
  unmarshal_video, marshal_video,
}
use xiu.Flv.TagRoundTrip.{reversed, unmarshal_audio-marshal_audio, unmarshal_video-marshal_video}
use xiu.Flv.Demuxer.{flv_data, read_flv_tag}
use xiu.Flv.FileRoundTrip.{write_tag, read_flv_tag-write_tag}

abbrev audio_header : AudioTagHeader
audio_header = record {
  sound_format = 10;
  sound_rate = 3;
  sound_size = 1;
  sound_type = 1;
  aac_packet_type = 1;
}

unmarshal_audio-marshal_audio_example :
    (bs : Bytes) × (marshal_audio audio_header ≡ ok bs [])
    × (unmarshal_audio (bs ++ 33 ∷ [])
        ≡ ok
            (record audio_header {
              aac_packet_type =
                  if audio_header.sound_format == aac then audio_header.aac_packet_type else 0;
            })
            (33 ∷ []))
unmarshal_audio-marshal_audio_example =
    unmarshal_audio-marshal_audio audio_header (33 ∷ []) (record {
      sound_format = omega arith;
      sound_rate = omega arith;
      sound_size = omega arith;
      sound_type = omega arith;
    })

-- A frame shown 40 ms after it is decoded.
abbrev video_header : VideoTagHeader
video_header = record { frame_type = 1; codec_id = 7; avc_packet_type = 1; composition_time = 40 }

unmarshal_video-marshal_video_example :
    (bs : Bytes) × (marshal_video video_header ≡ ok bs [])
    × (unmarshal_video (bs ++ 33 ∷ []) ≡ (
        let avc = (video_header.codec_id == h264) || (video_header.codec_id == hevc) in
        ok
          (record video_header {
            avc_packet_type = if avc then video_header.avc_packet_type else 0;
            composition_time =
                if avc then sign_extend (reversed video_header.composition_time) else 0;
          })
          (33 ∷ [])))
unmarshal_video-marshal_video_example =
    unmarshal_video-marshal_video video_header (33 ∷ [])
      (record { frame_type = omega arith; codec_id = omega arith; composition_time = omega arith })

read_flv_tag-write_tag_example :
    (bs : Bytes) × (write_tag 15 8 0x12345678 (1 ∷ 2 ∷ []) (4 ∷ []) ≡ ok tt ((4 ∷ []) ++ bs))
    × (read_flv_tag (bs ++ 3 ∷ []) ≡ ok (flv_data 8 0x12345678 (1 ∷ 2 ∷ [])) (3 ∷ []))
read_flv_tag-write_tag_example =
    read_flv_tag-write_tag 15 8 0x12345678 (1 ∷ 2 ∷ []) (4 ∷ []) (3 ∷ []) (omega arith)
      (omega arith) (omega arith)
